-- ===== src/Storage/Activities/Groups.antt =====
-- GROUP BY and SUM over rows, and the map that is collected of the groups.
use mathlib.Core.Path.{subst}
use mathlib.Core.List.{foldl, foldl-map}
use lend_worker_stellar.Base.{
  ℕ, ◌+◌, ◌*◌, ◌^◌, ◌≤◌, ◌<◌, parse_i64, in_range, length, ℤ, pos, ◌+ℤ◌, eqb_ℤ, eqb_ℤ_iff, Text,
  text_eq, member, true, false, Bool-cases, any, keep, if◌then◌else◌, HashMap, get, insert,
  get-insert, collect, int_key, Option, none, some, List, [], ◌∷◌, map, All, Result, ok,
  collect_all, ◌≡◌, ◌⊎◌, refl, sym, ap, ◌∙◌, inl, inr, arith,
}
use lend_worker_stellar.Base.Strings.Search.{text_eq_iff}
use lend_worker_stellar.Domain.Activity.{Activity}
use lend_worker_stellar.Storage.Activities.{
  json_text, bigint, sum_column, distinct_ids, distinct_texts, users, group_by, gathered,
}

-- The whole number that is stored under the key.
abbrev natural : Result (Option ℤ) → ℕ
natural (ok (some (pos n))) = n
natural _ = 0

abbrev pub amount : Text → Activity → ℕ
amount key a = natural (bigint (json_text (member key a.payload)))

-- The text under the key is a whole number that BIGINT holds.
abbrev pub HasAmount : Text → Activity → Type 0
HasAmount key a = bigint (json_text (member key a.payload)) ≡ ok (some (pos (amount key a)))

-- What the rows sum up to.
abbrev pub total : Text → List Activity → ℕ
total key [] = 0
total key (a ∷ rows) = amount key a + total key rows

natural-lt : (t : Option Text) (n : ℕ) → bigint t ≡ ok (some (pos n)) → n < 2 ^ 63
natural-lt none n h = cc
natural-lt (some t) n h = unfold parse_i64 in unfold in_range in ground arith

-- A sum of BIGINTs is bounded by the number of rows.
pub total-le :
    (key : Text) (rows : List Activity)
    → All (HasAmount key) rows
    → total key rows ≤ length rows * 2 ^ 63
total-le key [] h = omega arith
total-le key (a ∷ rows) h =
    omega (
      arith,
      natural-lt (json_text (member key a.payload)) (amount key a) h.0,
      total-le key rows h.1,
    )

add_pos : (a b : ℕ) → pos a +ℤ pos b ≡ pos (a + b)
unfolding ◌+ℤ◌
add_pos a b = ground arith

pub sum_column-total :
    (key : Text) (rows : List Activity)
    → All (HasAmount key) rows
    → sum_column key rows ≡ ok (pos (total key rows))
unfolding sum_column
sum_column-total key [] h = refl
sum_column-total key (a ∷ rows) h =
    rw (h.0, sum_column-total key rows h.1) (ap (λ z. ok z) (add_pos _ _))

-- Inserting an entry for each id of a list.
pub get-insert_all :
    {A : Type 0} (f : ℤ → A) (k : ℤ) (ids : List ℤ) (m : HashMap ℤ A)
    → get k (foldl (λ res op. insert op (f op) res) m ids)
      ≡ (if any (λ id. eqb_ℤ id k) ids then some (f k) else get k m)
get-insert_all f k [] m = refl
get-insert_all f k (id ∷ ids) m =
    get-insert_all f k ids (insert id (f id) m) ∙ elim (Bool-cases (eqb_ℤ id k)) [
      | inl same ↦
          let q : id ≡ k = (eqb_ℤ_iff id k).0 same in ground (arith, q, get-insert id k (f id) m)
      | inr other ↦ ground (arith, get-insert id k (f id) m)
    ]

abbrev enter : {A : Type 0} → HashMap ℤ A → ℤ × A → HashMap ℤ A
enter m p = insert p.0 p.1 m

collect_all-made :
    {A : Type 0} (make : ℤ → Result (ℤ × A)) (f : ℤ → A) (ids : List ℤ)
    → ((op : ℤ) → make op ≡ ok (op, f op))
    → collect_all (λ r. r) (map make ids) ≡ ok (map (λ op. (op, f op)) ids)
unfolding collect_all
collect_all-made make f [] h = refl
collect_all-made make f (id ∷ ids) h = rw (h id, collect_all-made make f ids h)

any-distinct_ids :
    (k : ℤ) (ids : List ℤ) → any (λ id. eqb_ℤ id k) (distinct_ids ids) ≡ any (λ id. eqb_ℤ id k) ids
unfolding distinct_ids
any-distinct_ids k [] = refl
any-distinct_ids k (id ∷ ids) = elim (Bool-cases (any (λ u. eqb_ℤ u id) (distinct_ids ids))) [
  | inr new ↦ rw (new, any-distinct_ids k ids)
  | inl old ↦ rw old (
      any-distinct_ids k ids ∙ elim (Bool-cases (eqb_ℤ id k)) [
        | inr other ↦ rw other
        | inl same ↦
            let q : id ≡ k = (eqb_ℤ_iff id k).0 same in
            rw same (
              sym (any-distinct_ids k ids)
              ∙ subst (λ x. any (λ u. eqb_ℤ u x) (distinct_ids ids) ≡ true) q old)
      ])
]

-- the rows of one operation
abbrev pub of_op : ℤ → List Activity → List Activity
of_op op rows = keep (λ a. eqb_ℤ a.factory_op_id op) rows

-- An id that no row has stands for no rows.
of_op-none :
    (op : ℤ) (rows : List Activity)
    → any (λ id. eqb_ℤ id op) (map (λ a. a.factory_op_id) rows) ≡ false
    → of_op op rows ≡ []
of_op-none op [] h = refl
of_op-none op (a ∷ rows) h = elim (Bool-cases (eqb_ℤ a.factory_op_id op)) [
  | inl same ↦ cc (rw same at h)
  | inr other ↦ rw other (of_op-none op rows (rw other at h))
]

-- A map that is collected of a row for each group has an entry for each operation that has rows.
pub collect-group_by :
    {A : Type 0} (f : ℤ → List Activity → A) (rows : List Activity) (op : ℤ)
    → (get op (collect (group_by (λ op l. (op, f op l)) rows)) ≡ some (f op (of_op op rows)))
      ⊎ ((get op (collect (group_by (λ op l. (op, f op l)) rows)) ≡ none) × (of_op op rows ≡ []))
unfolding group_by collect get
collect-group_by {A} f rows op =
    let ids = distinct_ids (map (λ a. a.factory_op_id) rows) in
    let g : ℤ → A = λ op. f op (of_op op rows) in
    let entry =
      ap (get op) (foldl-map (λ (op : ℤ). (op, g op)) enter ids []) ∙ get-insert_all g op ids [] in
    elim (Bool-cases (any (λ id. eqb_ℤ id op) ids)) [
      | inl there ↦ inl (entry ∙ rw there)
      | inr absent ↦
          inr
            (entry ∙ (rw (absent, get)), of_op-none op rows (sym (any-distinct_ids op _) ∙ absent))
    ]

-- The same where making a row may fail, but does not.
pub gathered-group_by :
    {A : Type 0} (make : ℤ → List Activity → Result (ℤ × A)) (f : ℤ → List Activity → A)
    (rows : List Activity)
    → ((op : ℤ) → make op (of_op op rows) ≡ ok (op, f op (of_op op rows)))
    → gathered (group_by make rows) ≡ ok (collect (group_by (λ op l. (op, f op l)) rows))
unfolding group_by
gathered-group_by {A} make f rows h = rw (
    collect_all-made (λ op. make op (of_op op rows)) (λ op. f op (of_op op rows))
      (distinct_ids (map (λ a. a.factory_op_id) rows)) h)

-- No text occurs twice.
abbrev pub IsDistinct : List Text → Type 0
IsDistinct [] = Unit
IsDistinct (t ∷ l) = (any (λ u. text_eq u t) l ≡ false) × IsDistinct l

pub distinct_texts-IsDistinct : (l : List Text) → IsDistinct (distinct_texts l)
unfolding distinct_texts
distinct_texts-IsDistinct [] = tt
distinct_texts-IsDistinct (t ∷ l) = elim (Bool-cases (any (λ u. text_eq u t) (distinct_texts l))) [
  | inl old ↦ rw old (distinct_texts-IsDistinct l)
  | inr new ↦ rw new (new, distinct_texts-IsDistinct l)
]

pub any-distinct_texts :
    (t : Text) (l : List Text)
    → any (λ u. text_eq u t) (distinct_texts l) ≡ any (λ u. text_eq u t) l
unfolding distinct_texts
any-distinct_texts t [] = refl
any-distinct_texts t (u ∷ l) = elim (Bool-cases (any (λ x. text_eq x u) (distinct_texts l))) [
  | inr new ↦ rw (new, any-distinct_texts t l)
  | inl old ↦ rw old (
      any-distinct_texts t l ∙ elim (Bool-cases (text_eq u t)) [
        | inr other ↦ rw other
        | inl same ↦
            let q : u ≡ t = (text_eq_iff u t).0 same in
            rw same (
              sym (any-distinct_texts t l)
              ∙ subst (λ x. any (λ y. text_eq y x) (distinct_texts l) ≡ true) q old)
      ])
]

pub length-distinct_texts-le : (l : List Text) → length (distinct_texts l) ≤ length l
unfolding distinct_texts
length-distinct_texts-le [] = omega arith
length-distinct_texts-le (t ∷ l) = ground (arith, length-distinct_texts-le l)

pub length-users-le : (rows : List Activity) → length (users rows) ≤ length rows
unfolding users
length-users-le [] = omega arith
length-users-le (a ∷ rows) = ground (arith, length-users-le rows)
