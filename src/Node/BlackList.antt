-- ===== src/Node/BlackList.antt =====
-- The black list of bdNode in bitdht/bdnode.cc: the addresses whose datagrams are dropped.
pub mod Dropped
use bitdht.Base.{
  ℕ, Bool, true, false, not, ◌&&◌, ◌||◌, List, [], ◌∷◌, ◌++◌, ltb, ◌==◌, if◌then◌else◌, any,
  keep_if, ◌≡◌, refl, arith, All,
}
use bitdht.Peer.{SockaddrIn}
use bitdht.Node.{Node}

abbrev pub same_sock : SockaddrIn → SockaddrIn → Bool
same_sock a b = (a.s_addr == b.s_addr) && (a.sin_port == b.sin_port)

unfoldable pub is_member_of_black_list : Node → SockaddrIn → Bool
is_member_of_black_list n black_addr = any (λ a. same_sock a black_addr) n.black_nodes

unfoldable pub add_black_list : Node → SockaddrIn → Node
add_black_list n black_addr =
    if any (λ a. same_sock a black_addr) n.black_nodes
    then n
    else record n { black_nodes = n.black_nodes ++ black_addr ∷ [] }

unfoldable pub remove_black_list : Node → SockaddrIn → Node
remove_black_list n black_addr = record n {
  black_nodes = keep_if (λ a. not (same_sock a black_addr)) n.black_nodes;
}
