-- ===== src/FsTree/Rows.antt =====
-- `FSTreeSequence::read` returns the items of one group after the other.
use minerule.Prelude.{
  ℕ, ◌≤◌, ◌≡◌, refl, sym, ap, ◌∙◌, arith, true, false, ◌==◌, ==_iff, List, [], ◌∷◌, ◌++◌,
  append_assoc, append-nil, length, inl, inr, Bool-cases, if◌then◌else◌,
}
use mathlib.Core.Path.{subst}
use minerule.FsTreeSequence.{Item, Seq}
use minerule.FsTree.{Row, read_loop, read}

abbrev add_row : Row → List (Item × Seq) → List (Item × Seq)
add_row row [] = (row.group, row.body ∷ []) ∷ []
add_row row ((gid, s) ∷ l) =
    if row.group == gid then (gid, row.body ∷ s) ∷ l else (row.group, row.body ∷ []) ∷ (gid, s) ∷ l

-- The runs of neighbouring rows of one group: the group and its items.
abbrev pub runs : List Row → List (Item × Seq)
runs [] = []
runs (row ∷ rs) = add_row row (runs rs)

==_refl : (a : ℕ) → (a == a) ≡ true
==_refl a = (==_iff a a).1 refl

-- The first run is that of the first row.
runs-first :
    (row : Row) (rs : List Row)
    → (s : Seq) × (l : List (Item × Seq)) × (runs (row ∷ rs) ≡ (row.group, s) ∷ l)
runs-first row rs = first (runs rs)
  where
    first :
        (l : List (Item × Seq))
        → (s : Seq) × (l' : List (Item × Seq)) × (add_row row l ≡ (row.group, s) ∷ l')
    first [] = (row.body ∷ [], [], refl)
    first ((gid, s) ∷ l) = elim (Bool-cases (row.group == gid)) [
      | inl e ↦ (
        row.body ∷ s,
        l,
        rw e (ap (λ g. (g, row.body ∷ s) ∷ l) (sym ((==_iff row.group gid).0 e))),
      )
      | inr e ↦ (row.body ∷ [], (gid, s) ∷ l, rw e refl)
    ]

-- What the loop of `read` returns, when `row` stands before the rows `rs`.
abbrev Reads : Row → List Row → Seq → Seq × List Row → Type 0
Reads row rs seq found =
    (t : Seq) × (found.0 ≡ seq ++ t)
    × (runs (row ∷ rs) ≡ (row.group, row.body ∷ t) ∷ runs found.1)
    × (length found.1 ≤ length rs)

module _ (gid : Item) (next : Row) (rs : List Row) (seq : Seq) where
  read_loop-goes_on :
      (gid == next.group) ≡ true
      → read_loop gid (next ∷ rs) seq ≡ read_loop gid rs (seq ++ next.body ∷ [])
  unfolding read_loop
  read_loop-goes_on e = rw (e, read_loop) refl

  read_loop-stops : (gid == next.group) ≡ false → read_loop gid (next ∷ rs) seq ≡ (seq, next ∷ rs)
  unfolding read_loop
  read_loop-stops e = rw (e, read_loop) refl

read_loop-Reads :
    (row : Row) (rs : List Row) (seq : Seq) → Reads row rs seq (read_loop row.group rs seq)
unfolding read_loop
read_loop-Reads row [] seq = ([], sym (append-nil seq), refl, omega arith)
read_loop-Reads row (next ∷ rs) seq = elim (Bool-cases (row.group == next.group)) [
  | inl e ↦
      let twin : Row = record { group = row.group; body = next.body } in
      let same : twin ≡ next =
        ap (λ g. record { group = g; body = next.body }) ((==_iff row.group next.group).0 e) in
      let (t, items, split, shorter) = read_loop-Reads twin rs (seq ++ next.body ∷ []) in
      let joined : add_row row
            ((row.group, next.body ∷ t) ∷ runs (read_loop row.group rs (seq ++ next.body ∷ [])).1)
          ≡ (row.group, row.body ∷ next.body ∷ t)
            ∷ runs (read_loop row.group rs (seq ++ next.body ∷ [])).1 =
        rw (==_refl row.group) refl in
      subst (Reads row (next ∷ rs) seq) (sym (read_loop-goes_on row.group next rs seq e)) (
        next.body ∷ t,
        items ∙ append_assoc seq (next.body ∷ []) t,
        ap (λ r. add_row row (runs (r ∷ rs))) (sym same) ∙ ap (add_row row) split ∙ joined,
        omega (arith, shorter),
      )
  | inr e ↦
      let (s, l, first) = runs-first next rs in
      let apart : add_row row ((next.group, s) ∷ l)
          ≡ (row.group, row.body ∷ []) ∷ (next.group, s) ∷ l =
        rw e refl in
      subst (Reads row (next ∷ rs) seq) (sym (read_loop-stops row.group next rs seq e)) (
        [],
        sym (append-nil seq),
        ap (add_row row) first ∙ apart ∙ ap (λ r. (row.group, row.body ∷ []) ∷ r) (sym first),
        omega arith,
      )
]

-- On rows that are not empty, read returns the items of the first run of rows of one group, and
-- leaves the rows of the other runs, at most as many as follow the first row.
pub read-runs :
    (row : Row) (rs : List Row)
    → (runs (row ∷ rs) ≡ (row.group, (read (row ∷ rs) []).0) ∷ runs (read (row ∷ rs) []).1)
      × (length (read (row ∷ rs) []).1 ≤ length rs)
unfolding read
read-runs row rs =
    let (t, items, split, shorter) = read_loop-Reads row rs (row.body ∷ []) in
    let same = read_loop-goes_on row.group row rs [] (==_refl row.group) in
    (
      split
          ∙ ap (λ s. (row.group, s) ∷ runs (read_loop row.group rs (row.body ∷ [])).1) (sym items)
          ∙ ap (λ r. (row.group, r.0) ∷ runs r.1) (sym same),
      omega (arith, shorter, ap (λ r. length r.1) same),
    )
