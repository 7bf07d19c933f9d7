-- ===== src/Node/BlackList/Dropped.antt =====
-- The black list of bitdht/bdnode.cc is a set of addresses, and recvPkt ignores what comes from there.
use bitdht.Base.{
  ◌≡◌, refl, Bool, true, false, not, ◌&&◌, ◌||◌, some, List, [], ◌∷◌, ◌++◌, arith, any, keep_if,
  inl, inr, Bool-cases, All, All-append,
}
use bitdht.Peer.{SockaddrIn}
use bitdht.Node.{World, Node, NetMsg, Leftovers}
use bitdht.Node.BlackList.{same_sock, is_member_of_black_list, add_black_list, remove_black_list}
use bitdht.Node.Receiving.{recv_pkt}

pub any-append :
    {A : Type 0} (p : A → Bool) (xs ys : List A) → any p (xs ++ ys) ≡ (any p xs || any p ys)
any-append p [] ys = refl
any-append p (x ∷ xs) ys = ground (arith, any-append p xs ys)

any_same :
    (a b : SockaddrIn) (l : List SockaddrIn)
    → any (λ x. same_sock x a) l ≡ true
    → same_sock a b ≡ true
    → any (λ x. same_sock x b) l ≡ true
any_same a b [] h e = h
any_same a b (x ∷ l) h e = ground (arith, any_same a b l)

any-keep_other :
    (a b : SockaddrIn) (l : List SockaddrIn)
    → any (λ x. same_sock x b) (keep_if (λ x. not (same_sock x a)) l)
      ≡ (not (same_sock a b) && any (λ x. same_sock x b) l)
any-keep_other a b [] = ground arith
any-keep_other a b (x ∷ l) = ground (arith, any-keep_other a b l)

-- Behind addBlackList the members are the old ones and those with the address and port that was added.
pub is_member-add_black_list :
    (n : Node) (a b : SockaddrIn)
    → is_member_of_black_list (add_black_list n a) b
      ≡ (same_sock a b || is_member_of_black_list n b)
unfolding is_member_of_black_list add_black_list
is_member-add_black_list n a b = elim (Bool-cases (any (λ x. same_sock x a) n.black_nodes)) [
  | inl e ↦ rw e (ground (arith, any_same a b n.black_nodes e))
  | inr e ↦ rw e (ground (arith, any-append (λ x. same_sock x b) n.black_nodes (a ∷ [])))
]

-- Behind removeBlackList the members are the old ones with another address or port than that removed.
pub is_member-remove_black_list :
    (n : Node) (a b : SockaddrIn)
    → is_member_of_black_list (remove_black_list n a) b
      ≡ (not (same_sock a b) && is_member_of_black_list n b)
unfolding is_member_of_black_list remove_black_list
is_member-remove_black_list n a b = any-keep_other a b n.black_nodes

same_sock_self : (a : SockaddrIn) → same_sock a a ≡ true
same_sock_self a = ground arith

-- Once the sender of a datagram is on the black list, receiving it changes nothing, whatever it holds.
pub recv_pkt-add_black_list :
    (w : World) (left : Leftovers) (n : Node) (m : NetMsg)
    → recv_pkt w left (add_black_list n m.addr) m ≡ some (add_black_list n m.addr)
unfolding recv_pkt
recv_pkt-add_black_list w left n m =
    rw (is_member-add_black_list n m.addr m.addr, same_sock_self m.addr) refl

-- No two addresses of the list are the same.
abbrev pub IsBlackList : List SockaddrIn → Type 0
IsBlackList [] = Unit {0}
IsBlackList (a ∷ l) = All (λ b. same_sock b a ≡ false) l × IsBlackList l

push-IsBlackList :
    (a : SockaddrIn) (l : List SockaddrIn)
    → any (λ x. same_sock x a) l ≡ false
    → IsBlackList l
    → IsBlackList (l ++ a ∷ [])
push-IsBlackList a [] e h = (tt, tt)
push-IsBlackList a (x ∷ l) e h = (
  All-append (λ b. same_sock b x ≡ false) l (a ∷ []) h.0 (ground arith, tt),
  push-IsBlackList a l (ground arith) h.1,
)

pub add_black_list-IsBlackList :
    (n : Node) (a : SockaddrIn)
    → IsBlackList n.black_nodes
    → IsBlackList (add_black_list n a).black_nodes
unfolding add_black_list
add_black_list-IsBlackList n a h = elim (Bool-cases (any (λ x. same_sock x a) n.black_nodes)) [
  | inl e ↦ rw e h
  | inr e ↦ rw e (push-IsBlackList a n.black_nodes e h)
]
