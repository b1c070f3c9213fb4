-- ===== src/Slurm/Nodes/Counts.antt =====
-- What a listing of nodes adds up to.
use joyrun.Base.{
  ℕ, suc, ◌+◌, ◌≡◌, refl, subst, ap, ◌∙◌, false, ◌||◌, Option, none, some, List, [], ◌∷◌, inl, inr,
  arith, ◌++◌, Bool-cases, length, any,
}
use joyrun.Base.Text.{Text, text_eq, text_eq_iff}
use joyrun.Base.Strings.{trim_space, split, is_empty, split_cuts}
use joyrun.Base.Numbers.{ℤ, parse_int}
use joyrun.Fault.{Result, ok, err}
use joyrun.Slurm.Nodes.{
  NodeInfo, NodeSummary, NodesResult, NodeCategory, node_state_category, add_node, named, read_node,
  read_lines, no_nodes, parse_nodes, then_nodes, count_node, with_cpus, with_memory,
}

-- A list of nodes: the name of each is not empty and stands once.
abbrev pub IsListed : List NodeInfo → Type 0
IsListed [] = Unit
IsListed (n ∷ ns) = (is_empty n.name ≡ false) × (any (named n.name) ns ≡ false) × IsListed ns

abbrev pub parts : NodeSummary → ℕ
parts s = s.idle + s.mixed + s.allocated + s.unavailable

-- The summary counts the nodes of the list, and its four classes add up to the total.
pub record IsCounted (r : NodesResult) : Type 0 where
  pub total : r.summary.total ≡ length r.nodes
  pub split : parts r.summary ≡ r.summary.total
  pub listed : IsListed r.nodes

length-snoc : (ns : List NodeInfo) (n : NodeInfo) → length (ns ++ n ∷ []) ≡ suc (length ns)
length-snoc [] n = refl
length-snoc (m ∷ ns) n = ap suc (length-snoc ns n)

any-snoc :
    (name : Text) (ns : List NodeInfo) (n : NodeInfo)
    → any (named name) (ns ++ n ∷ []) ≡ (any (named name) ns || named name n)
any-snoc name [] n = ground arith
any-snoc name (m ∷ ns) n = ground (arith, any-snoc name ns n)

text_eq_comm : (s t : Text) → text_eq s t ≡ text_eq t s
text_eq_comm s t = ground (arith, text_eq_iff s t, text_eq_iff t s)

IsListed-snoc :
    (ns : List NodeInfo) (n : NodeInfo)
    → is_empty n.name ≡ false
    → any (named n.name) ns ≡ false
    → IsListed ns
    → IsListed (ns ++ n ∷ [])
IsListed-snoc [] n e fresh h = (e, refl, tt)
IsListed-snoc (m ∷ ns) n e fresh h = (
  h.0,
  any-snoc m.name ns n ∙ ground (arith, text_eq_comm m.name n.name),
  IsListed-snoc ns n e (ground arith) h.2,
)

count_node-total :
    (c : NodeCategory) (s : NodeSummary)
    → ((count_node c s).total ≡ suc s.total) × (parts (count_node c s) ≡ suc (parts s))
count_node-total NodeCategory.idle s = ground arith
count_node-total NodeCategory.mixed s = ground arith
count_node-total NodeCategory.allocated s = ground arith
count_node-total NodeCategory.unavailable s = ground arith

add_node-IsCounted :
    (n : NodeInfo) (r : NodesResult)
    → is_empty n.name ≡ false
    → any (named n.name) r.nodes ≡ false
    → IsCounted r
    → IsCounted (add_node n r)
unfolding add_node
add_node-IsCounted n r e fresh h =
    let (one, all) = count_node-total (node_state_category n.state) r.summary in
    record {
      total = one ∙ ap suc h.total ∙ ground (arith, length-snoc r.nodes n);
      split = all ∙ ap suc h.split ∙ ground (arith, one);
      listed = IsListed-snoc r.nodes n e fresh h.listed;
    }

elim_ok : (P : NodesResult → Type 0) {p q : NodesResult} → ok p ≡ ok q → P p → P q
elim_ok P {p} {q} e h = subst P (ground arith) h

with_memory-IsCounted :
    (part name state gres : Text) (cpus : ℤ) (memory : Option ℤ) (r : NodesResult) {q : NodesResult}
    → is_empty name ≡ false
    → any (named name) r.nodes ≡ false
    → IsCounted r
    → with_memory part name state gres cpus memory r ≡ ok q
    → IsCounted q
with_memory-IsCounted part name state gres cpus none r {q} solid fresh h e = ground arith
with_memory-IsCounted part name state gres cpus (some memory) r {q} solid fresh h e =
    elim_ok IsCounted e (add_node-IsCounted _ r solid fresh h)

with_cpus-IsCounted :
    (part name state memory gres : Text) (cpus : Option ℤ) (r : NodesResult) {q : NodesResult}
    → is_empty name ≡ false
    → any (named name) r.nodes ≡ false
    → IsCounted r
    → with_cpus part name state memory gres cpus r ≡ ok q
    → IsCounted q
with_cpus-IsCounted part name state memory gres none r {q} solid fresh h e = ground arith
with_cpus-IsCounted part name state memory gres (some cpus) r {q} solid fresh h e =
    with_memory-IsCounted part name state gres cpus (parse_int (trim_space memory)) r solid fresh h
      e

read_node-IsCounted :
    (row : List Text) (r : NodesResult) {q : NodesResult}
    → IsCounted r
    → read_node row r ≡ ok q
    → IsCounted q
unfolding read_node
read_node-IsCounted [] r {q} h e = ground arith
read_node-IsCounted (a ∷ []) r {q} h e = ground arith
read_node-IsCounted (a ∷ b ∷ []) r {q} h e = ground arith
read_node-IsCounted (a ∷ b ∷ c ∷ []) r {q} h e = ground arith
read_node-IsCounted (a ∷ b ∷ c ∷ d ∷ []) r {q} h e = ground arith
read_node-IsCounted (a ∷ b ∷ c ∷ d ∷ m ∷ []) r {q} h e = ground arith
read_node-IsCounted (a ∷ b ∷ c ∷ d ∷ m ∷ g ∷ x ∷ row) r {q} h e = ground arith
read_node-IsCounted (a ∷ b ∷ c ∷ d ∷ m ∷ g ∷ []) r {q} h e =
    elim (Bool-cases (is_empty (trim_space b))) [
      | inl none_given ↦ ground arith
      | inr solid ↦ elim (Bool-cases (any (named (trim_space b)) r.nodes)) [
        | inl seen ↦ subst IsCounted (ground arith) h
        | inr fresh ↦
            with_cpus-IsCounted a (trim_space b) c m g (parse_int (trim_space d)) r solid fresh h
              (ground arith)
      ]
    ]

then_nodes-IsCounted :
    (o : Result NodesResult) (f : NodesResult → Result NodesResult) {q : NodesResult}
    → ((p : NodesResult) → o ≡ ok p → f p ≡ ok q → IsCounted q)
    → then_nodes o f ≡ ok q
    → IsCounted q
then_nodes-IsCounted (err x) f {q} step k = ground arith
then_nodes-IsCounted (ok p) f {q} step k = step p refl k

read_lines-IsCounted :
    (lines : List Text) (r : NodesResult) {q : NodesResult}
    → IsCounted r
    → read_lines lines r ≡ ok q
    → IsCounted q
unfolding read_lines
read_lines-IsCounted [] r {q} h e = subst IsCounted (ground arith) h
read_lines-IsCounted (given ∷ lines) r {q} h e = elim (Bool-cases (is_empty (trim_space given))) [
  | inl blank ↦ read_lines-IsCounted lines r h (ground arith)
  | inr row ↦
      then_nodes-IsCounted (read_node (split_cuts 5 b'|' (trim_space given)) r) (read_lines lines)
        (λ p n k. read_lines-IsCounted lines p (read_node-IsCounted _ r h n) k) (ground arith)
]

-- If parseNodes answers a listing, no node in it is nameless or stands twice, the total is the
-- number of nodes, and the idle, mixed, allocated and unavailable ones add up to the total.
pub parse_nodes-IsCounted :
    (output : Text) {q : NodesResult} → parse_nodes output ≡ ok q → IsCounted q
unfolding parse_nodes
parse_nodes-IsCounted output e =
    read_lines-IsCounted (split 10 output) no_nodes
      (record { total = refl; split = refl; listed = tt }) e
