-- ===== src/Store/Leases/Claim.antt =====
-- What ClaimNextOperationExcept hands out.
use joyrun.Base.{
  ◌≤◌, ℕ, zero, suc, String, ◌≡◌, refl, ap, sym, ◌∙◌, ◌⊎◌, inl, inr, true, false, ◌&&◌, ◌||◌, none,
  some, List, [], ◌∷◌, ◌==◌, eq_refl, arith, if◌then◌else◌, All, any, update_where, select_where,
  get_elem?, Bool-cases, Option-cases, subst, get_elem?-select_where, get_elem?-update_where_from,
  get_elem?-update_where_hit, All-select_where, select_where-nil,
}
use joyrun.Fault.{ok}
use joyrun.Timestamp.{Timestamp, text_lt}
use joyrun.Timestamp.Order.{text_lt_irrefl, text_lt-asym, text_lt-split}
use joyrun.Model.{is_queued, Operation}
use joyrun.Store.{Database, Sql}
use joyrun.Store.Operations.{earliest}
use joyrun.Store.Leases.{
  lease_expired, reclaim, due, is_blocked, claimable, claimed, write_claim, reclaimed, candidate,
  claim_next_operation_except,
}

earliest-mem :
    (xs : List Operation) {y : Operation}
    → earliest xs ≡ some y
    → (i : ℕ) × (get_elem? xs i ≡ some y)
unfolding earliest
earliest-mem [] h = ground arith
earliest-mem (x ∷ xs) {y} h = elim (Option-cases (earliest xs)) [
  | inl e ↦ (zero, rw e at h)
  | inr (z, e) ↦
      let (i, q) = earliest-mem xs e in
      let k : some (if text_lt z.created_at x.created_at then z else x) ≡ some y = rw e at h in
      elim (Bool-cases (text_lt z.created_at x.created_at)) [
        | inl t ↦ (suc i, q ∙ (rw t at k))
        | inr t ↦ (zero, rw t at k)
      ]
]

earliest-none : (xs : List Operation) → earliest xs ≡ none → xs ≡ []
unfolding earliest
earliest-none [] h = refl
earliest-none (x ∷ xs) h = elim (Option-cases (earliest xs)) [
  | inl e ↦ ground arith
  | inr (z, e) ↦ ground arith
]

-- No row's creation text is below that of `y`.
abbrev pub IsLeast : Operation → List Operation → Type 0
IsLeast y = All (λ z. text_lt z.created_at y.created_at ≡ false)

IsLeast-trans :
    (x y : Operation) (xs : List Operation)
    → text_lt y.created_at x.created_at ≡ false
    → IsLeast y xs
    → IsLeast x xs
IsLeast-trans x y [] h k = tt
IsLeast-trans x y (z ∷ xs) h k = (
  ground (arith, text_lt-split z.created_at y.created_at x.created_at, k.0),
  IsLeast-trans x y xs h k.1,
)

earliest-IsLeast : (xs : List Operation) {y : Operation} → earliest xs ≡ some y → IsLeast y xs
unfolding earliest
earliest-IsLeast [] h = tt
earliest-IsLeast (x ∷ xs) {y} h = elim (Option-cases (earliest xs)) [
  | inl e ↦
      let q : x ≡ y = cc (rw e at h) in
      subst (λ y. IsLeast y (x ∷ xs)) q (text_lt_irrefl x.created_at, rw (earliest-none xs e) tt)
  | inr (z, e) ↦
      let k : some (if text_lt z.created_at x.created_at then z else x) ≡ some y = rw e at h in
      let least = earliest-IsLeast xs e in
      elim (Bool-cases (text_lt z.created_at x.created_at)) [
        | inl t ↦
            let q : z ≡ y = cc (rw t at k) in
            subst (λ y. IsLeast y (x ∷ xs)) q (text_lt-asym z.created_at x.created_at t, least)
        | inr t ↦
            let q : x ≡ y = cc (rw t at k) in
            subst (λ y. IsLeast y (x ∷ xs)) q
              (text_lt_irrefl x.created_at, IsLeast-trans x z xs t least)
      ]
]

-- The row, before the claim, that a claimed operation comes from, and what makes it claimable.
pub record ClaimedFrom (owner : String) (now expires : Timestamp) (blocked : List String)
    (db db' : Database) (op : Operation) : Type 0 where
  pub position : ℕ
  pub row : Operation
  pub found : get_elem? db.operations position ≡ some row
  -- It was queued, or running on a lease whose text is below that of the clock.
  pub was_free : (is_queued row.state || lease_expired now row) ≡ true
  pub was_due : due row.next_attempt_at now ≡ true
  pub was_open : is_blocked blocked row ≡ false
  pub taken :
      op ≡ claimed owner now expires (if lease_expired now row then reclaim now row else row)
  pub stored : get_elem? db'.operations position ≡ some op
  -- No claimable row has a creation text below that of this one.
  pub least_text :
      All
        (λ z. claimable now blocked z ≡ true → text_lt z.created_at row.created_at ≡ false)
        (reclaimed now db)
  -- No claimable row was created in an earlier second.
  pub least_second :
      All
        (λ z. claimable now blocked z ≡ true → row.created_at.sec ≤ z.created_at.sec)
        (reclaimed now db)

pub row_of :
    (now : Timestamp) (blocked : List String) (db : Database) {x : Operation}
    → candidate now blocked db ≡ some x
    → (i : ℕ) × (row : Operation) × (get_elem? db.operations i ≡ some row)
      × (get_elem? (reclaimed now db) i ≡ some x)
      × (x ≡ (if lease_expired now row then reclaim now row else row))
      × (claimable now blocked x ≡ true)
      × IsLeast x (select_where (claimable now blocked) (reclaimed now db))
unfolding candidate
row_of now blocked db {x} h =
    let (k, at_k) = earliest-mem (select_where (claimable now blocked) (reclaimed now db)) h in
    let (i, at_i, fits) =
      get_elem?-select_where (claimable now blocked) (reclaimed now db) k at_k in
    let (row, at_row, same) =
      get_elem?-update_where_from (lease_expired now) (reclaim now) db.operations i at_i in
    (i, row, at_row, at_i, same, fits, earliest-IsLeast _ h)

-- The row as the selection sees it.
abbrev pub seen : Timestamp → Operation → Operation
seen now row = if lease_expired now row then reclaim now row else row

pub free_before :
    (now : Timestamp) (blocked : List String) (row : Operation)
    → claimable now blocked (seen now row) ≡ true
    → ((is_queued row.state || lease_expired now row) ≡ true)
      × (due row.next_attempt_at now ≡ true)
      × (is_blocked blocked row ≡ false)
      × ((seen now row).created_at ≡ row.created_at)
      × (is_queued (seen now row).state ≡ true)
unfolding claimable reclaim is_blocked
free_before now blocked row fits = elim (Bool-cases (lease_expired now row)) [
  | inl e ↦ ground arith
  | inr e ↦ ground arith
]

pub claim-inv :
    (sql : Sql) (owner : String) (now expires : Timestamp) (blocked : List String) (db : Database)
    {op : Operation} {db' : Database}
    → claim_next_operation_except sql owner now expires blocked db ≡ (ok (some op), db')
    → (x : Operation) × (candidate now blocked db ≡ some x)
      × (op ≡ claimed owner now expires x)
      × (db'.operations
          ≡ update_where
              (λ o. o.id == (claimed owner now expires x).id && is_queued o.state)
              (write_claim (claimed owner now expires x))
              (reclaimed now db))
unfolding claim_next_operation_except
claim-inv sql owner now expires blocked db {op} {db'} h =
    elim (Option-cases (candidate now blocked db)) [
      | inl e ↦ ground arith
      | inr (x, e) ↦ (x, e, ground arith, ground arith)
    ]

store_claim :
    (owner : String) (now expires : Timestamp) (x : Operation) (xs : List Operation) (i : ℕ)
    → get_elem? xs i ≡ some x
    → is_queued x.state ≡ true
    → get_elem?
        (update_where
          (λ o. o.id == (claimed owner now expires x).id && is_queued o.state)
          (write_claim (claimed owner now expires x))
          xs)
        i
      ≡ some (claimed owner now expires x)
unfolding claimed
store_claim owner now expires x xs i at_i is_q =
    get_elem?-update_where_hit (λ o. o.id == x.id && is_queued o.state)
      (write_claim (claimed owner now expires x)) xs i at_i (ground (arith, eq_refl x.id))

-- What the order of the texts says of the times.
not_later :
    (now : Timestamp) (blocked : List String) (t : Timestamp) (ops : List Operation)
    → All (λ z. claimable now blocked z ≡ true → text_lt z.created_at t ≡ false) ops
    → All (λ z. claimable now blocked z ≡ true → t.sec ≤ z.created_at.sec) ops
unfolding text_lt
not_later now blocked t [] h = tt
not_later now blocked t (z ∷ ops) h =
    ((λ fits. ground (arith, h.0 fits)), not_later now blocked t ops h.1)

-- A claim that hands out an operation took it from a row that was free, due and not blocked, and
-- stored it there under the claiming worker's lease. Of all such rows it is one with the least text
-- of its creation time, so none of them was created in an earlier second.
pub claim-ClaimedFrom :
    (sql : Sql) (owner : String) (now expires : Timestamp) (blocked : List String) (db : Database)
    {op : Operation} {db' : Database}
    → claim_next_operation_except sql owner now expires blocked db ≡ (ok (some op), db')
    → ClaimedFrom owner now expires blocked db db' op
claim-ClaimedFrom sql owner now expires blocked db {op} {db'} h =
    let (x, e, taken, rows) = claim-inv sql owner now expires blocked db h in
    let (i, row, at_row, at_i, same, fits, least) = row_of now blocked db e in
    let (was_free, was_due, was_open, made, is_q) = free_before now blocked row (rw same at fits) in
    let least_text : All
        (λ z. claimable now blocked z ≡ true → text_lt z.created_at row.created_at ≡ false)
        (reclaimed now db) =
      subst
        (λ t.
          All (λ z. claimable now blocked z ≡ true → text_lt z.created_at t ≡ false)
            (reclaimed now db))
        (ap (λ (o : Operation). o.created_at) same ∙ made)
        (All-select_where (λ z. text_lt z.created_at x.created_at ≡ false) (claimable now blocked)
          (reclaimed now db) least) in
    record {
      position = i;
      row = row;
      found = at_row;
      was_free = was_free;
      was_due = was_due;
      was_open = was_open;
      taken = taken ∙ ap (claimed owner now expires) same;
      stored =
          ap (λ ops. get_elem? ops i) rows
          ∙ store_claim owner now expires x (reclaimed now db) i at_i
              (ap (λ (o : Operation). is_queued o.state) same ∙ is_q)
          ∙ ap some (sym taken);
      least_text = least_text;
      least_second = not_later now blocked row.created_at (reclaimed now db) least_text;
    }

candidate-none :
    (now : Timestamp) (blocked : List String) (db : Database)
    → candidate now blocked db ≡ none
    → any (claimable now blocked) (reclaimed now db) ≡ false
unfolding candidate
candidate-none now blocked db e =
    (select_where-nil (claimable now blocked) (reclaimed now db)).0 (earliest-none _ e)

candidate-some :
    (now : Timestamp) (blocked : List String) (db : Database) {x : Operation}
    → candidate now blocked db ≡ some x
    → any (claimable now blocked) (reclaimed now db) ≡ true
unfolding candidate earliest
candidate-some now blocked db {x} e =
    elim (Bool-cases (any (claimable now blocked) (reclaimed now db))) [
      | inl h ↦ h
      | inr h ↦
          let q = (select_where-nil (claimable now blocked) (reclaimed now db)).1 h in
          let bad : earliest [] ≡ some x = rw q at e in absurd (cc bad)
    ]

-- With a working database and an owner, a claim hands out an operation exactly when some row is
-- claimable once expired leases are taken back; otherwise nothing changes.
pub claim-total :
    (sql : Sql) (owner : String) (now expires : Timestamp) (blocked : List String) (db : Database)
    → ((n : ℕ) → sql n ≡ true)
    → (owner == "") ≡ false
    → ((any (claimable now blocked) (reclaimed now db) ≡ true)
        × ((op : Operation) × (db' : Database) × (claim_next_operation_except sql owner now expires
                blocked db
              ≡ (ok (some op), db'))))
      ⊎ ((any (claimable now blocked) (reclaimed now db) ≡ false)
          × (claim_next_operation_except sql owner now expires blocked db ≡ (ok none, db)))
unfolding claim_next_operation_except
claim-total sql owner now expires blocked db up named =
    elim (Option-cases (candidate now blocked db)) [
      | inl e ↦ inr (candidate-none now blocked db e, ground (arith, up 0, up 1, up 2))
      | inr (x, e) ↦ inl (
        candidate-some now blocked db e,
        (
          claimed owner now expires x,
          record db {
            operations =
                update_where (λ o. o.id == (claimed owner now expires x).id && is_queued o.state)
                  (write_claim (claimed owner now expires x)) (reclaimed now db);
          },
          ground (arith, up 0, up 1, up 2, up 3, up 4),
        ),
      )
    ]
