-- ===== src/Msgs/Faults.antt =====
-- The messages on which beMsgType of bitdht/bdmsgs.cc reads the null pointer, and the tokens that do not fit.
use bitdht.Base.{◌≡◌, ◌≢◌, refl, ◌↔◌, ◌⊎◌, inl, inr, Option, none, some}
use bitdht.Msgs.{
  BeNode, BeY, y_unknown, y_r, y_q, y_of, y_found, get_dict_node, get_y, msg_type, type_by,
  query_found, reply_found,
}

-- Nothing stands under "y", or a string that starts with q stands there and nothing under "q".
abbrev pub ReadsNull : Option BeNode → Option BeNode → Type 0
ReadsNull y q = (y ≡ none) ⊎ ((v : BeNode) × (y ≡ some v) × (y_of v ≡ y_q) × (q ≡ none))

query_found-none : (q : Option BeNode) → query_found q ≡ none → q ≡ none
query_found-none none h = refl
query_found-none (some q) h = cc

reply_found-ne-none : (r : Option BeNode) → reply_found r ≢ none
reply_found-ne-none none h = cc
reply_found-ne-none (some r) h = cc

ReadsNull-type_by :
    (n v : BeNode) (y : BeY)
    → y_of v ≡ y
    → type_by n (some y) ≡ none
    → ReadsNull (some v) (get_dict_node n "q")
ReadsNull-type_by n v y_unknown e h = cc
ReadsNull-type_by n v y_r e h = absurd (reply_found-ne-none (get_dict_node n "r") h)
ReadsNull-type_by n v y_q e h = inr (v, refl, e, query_found-none (get_dict_node n "q") h)

type_by-ReadsNull :
    (n : BeNode) (y : Option BeNode)
    → ReadsNull y (get_dict_node n "q")
    → type_by n (y_found y) ≡ none
type_by-ReadsNull n y (inl e) = rw e refl
type_by-ReadsNull n y (inr (v, e, q, missing)) = rw (e, q, missing) refl

ReadsNull-of_type :
    (n : BeNode) (y : Option BeNode)
    → type_by n (y_found y) ≡ none
    → ReadsNull y (get_dict_node n "q")
ReadsNull-of_type n none h = inl refl
ReadsNull-of_type n (some v) h = ReadsNull-type_by n v (y_of v) refl h

-- Finding the type of a message reads the null pointer exactly when the message has nothing under "y", or has a
-- string that starts with q there and nothing under "q".
pub msg_type-ReadsNull :
    (n : BeNode) → (msg_type n ≡ none) ↔ ReadsNull (get_dict_node n "y") (get_dict_node n "q")
unfolding msg_type get_y
msg_type-ReadsNull n =
    (ReadsNull-of_type n (get_dict_node n "y"), type_by-ReadsNull n (get_dict_node n "y"))
