-- ===== src/Storage/Activities/Delivered.antt =====
-- What a sequence of batches leaves in the activity table, by `insert_many` of
-- crates/lw-storage/src/activity_repository.rs: a batch is stored whole, or dropped whole when one of
-- its event hashes is there.
use mathlib.Core.Path.{subst}
use mathlib.Core.List.{foldl, append_assoc, append-nil}
use lend_worker_stellar.Base.{
  Bool, true, false, Bool-cases, any, if◌then◌else◌, List, [], ◌∷◌, ◌++◌, All, All-imp, Any, ◌⊎◌,
  inl, inr, ◌≡◌, refl, sym, ap, ◌∙◌,
}
use lend_worker_stellar.Domain.Activity.{Activity}
use lend_worker_stellar.Storage.Tables.{has_hash}
use lend_worker_stellar.Storage.Activities.Uniqueness.{has_hash-append, last-hash}
use lend_worker_stellar.Storage.Activities.Fresh.{IsFresh, IsRepeated}

-- Whether the hash of some row is stored.
abbrev pub is_repeated : List Activity → List Activity → Bool
is_repeated stored rows = any (λ a. has_hash stored a.event_hash) rows

pub is_repeated-IsRepeated :
    (stored rows : List Activity) → is_repeated stored rows ≡ true → IsRepeated stored rows
is_repeated-IsRepeated stored [] h = cc
is_repeated-IsRepeated stored (a ∷ rows) h = elim (Bool-cases (has_hash stored a.event_hash)) [
  | inl e ↦ inl e
  | inr e ↦ inr (is_repeated-IsRepeated stored rows (rw e at h))
]

pub is_repeated-IsFresh :
    (stored rows : List Activity) → is_repeated stored rows ≡ false → IsFresh stored rows
is_repeated-IsFresh stored [] h = tt
is_repeated-IsFresh stored (a ∷ rows) h = elim (Bool-cases (has_hash stored a.event_hash)) [
  | inl e ↦ cc (rw e at h)
  | inr e ↦ (e, is_repeated-IsFresh stored rows (rw e at h))
]

-- The table after one batch, and after a sequence of them.
abbrev pub accept : List Activity → List Activity → List Activity
accept stored rows = if is_repeated stored rows then stored else stored ++ rows

abbrev pub deliver : List Activity → List (List Activity) → List Activity
deliver stored batches = foldl accept stored batches

-- The batch has been taken: another copy of it changes nothing.
abbrev IsTaken : List Activity → List Activity → Type 0
IsTaken stored rows = (rows ≡ []) ⊎ (is_repeated stored rows ≡ true)

is_repeated-append :
    (stored more rows : List Activity)
    → is_repeated stored rows ≡ true
    → is_repeated (stored ++ more) rows ≡ true
is_repeated-append stored more [] h = cc
is_repeated-append stored more (a ∷ rows) h = elim (Bool-cases (has_hash stored a.event_hash)) [
  | inl e ↦ rw (has_hash-append stored more a.event_hash e)
  | inr e ↦ elim (Bool-cases (has_hash (stored ++ more) a.event_hash)) [
    | inl there ↦ rw there
    | inr not_there ↦ rw not_there (is_repeated-append stored more rows (rw e at h))
  ]
]

IsTaken-append :
    (stored more rows : List Activity) → IsTaken stored rows → IsTaken (stored ++ more) rows
IsTaken-append stored more rows (inl e) = inl e
IsTaken-append stored more rows (inr h) = inr (is_repeated-append stored more rows h)

accept-grows :
    (stored rows : List Activity) → (more : List Activity) × (accept stored rows ≡ stored ++ more)
accept-grows stored rows = elim (Bool-cases (is_repeated stored rows)) [
  | inl e ↦ ([], rw e (sym (append-nil stored)))
  | inr e ↦ (rows, rw e)
]

deliver-grows :
    (batches : List (List Activity)) (stored : List Activity)
    → (more : List Activity) × (deliver stored batches ≡ stored ++ more)
deliver-grows [] stored = ([], sym (append-nil stored))
deliver-grows (rows ∷ batches) stored =
    let (one, first) = accept-grows stored rows in
    let (others, after) = deliver-grows batches (accept stored rows) in
    (one ++ others, after ∙ ap (λ l. l ++ others) first ∙ append_assoc stored one others)

-- The two cases of `accept`.
pub accept-repeated :
    (stored rows : List Activity) → is_repeated stored rows ≡ true → accept stored rows ≡ stored
accept-repeated stored rows e = rw e refl

pub accept-fresh :
    (stored rows : List Activity)
    → is_repeated stored rows ≡ false
    → accept stored rows ≡ stored ++ rows
accept-fresh stored rows e = rw e refl

accept-IsTaken : (stored rows : List Activity) → IsTaken (accept stored rows) rows
accept-IsTaken stored [] = inl refl
accept-IsTaken stored (a ∷ rows) = elim (Bool-cases (is_repeated stored (a ∷ rows))) [
  | inl e ↦
      inr
        (subst (λ l. is_repeated l (a ∷ rows) ≡ true) (sym (accept-repeated stored (a ∷ rows) e)) e)
  | inr e ↦
      let there : is_repeated (stored ++ a ∷ rows) (a ∷ rows) ≡ true =
        rw (last-hash stored a rows) refl in
      inr (
        subst (λ l. is_repeated l (a ∷ rows) ≡ true) (sym (accept-fresh stored (a ∷ rows) e)) there)
]

IsTaken-deliver :
    (batches : List (List Activity)) (stored rows : List Activity)
    → IsTaken stored rows
    → IsTaken (deliver stored batches) rows
IsTaken-deliver batches stored rows h =
    let (more, grown) = deliver-grows batches stored in
    subst (λ l. IsTaken l rows) (sym grown) (IsTaken-append stored more rows h)

deliver-IsTaken :
    (batches : List (List Activity)) (stored : List Activity)
    → All (IsTaken (deliver stored batches)) batches
deliver-IsTaken [] stored = tt
deliver-IsTaken (rows ∷ batches) stored = (
  IsTaken-deliver batches (accept stored rows) rows (accept-IsTaken stored rows),
  deliver-IsTaken batches (accept stored rows),
)

accept-again : (stored rows : List Activity) → IsTaken stored rows → accept stored rows ≡ stored
accept-again stored rows (inl e) = rw e (append-nil stored)
accept-again stored rows (inr e) = accept-repeated stored rows e

deliver-again :
    (batches : List (List Activity)) (stored : List Activity)
    → All (IsTaken stored) batches
    → deliver stored batches ≡ stored
deliver-again [] stored h = refl
deliver-again (rows ∷ batches) stored h =
    rw (accept-again stored rows h.0) (deliver-again batches stored h.1)

deliver-append :
    (front behind : List (List Activity)) (stored : List Activity)
    → deliver stored (front ++ behind) ≡ deliver (deliver stored front) behind
deliver-append [] behind stored = refl
deliver-append (rows ∷ front) behind stored = deliver-append front behind (accept stored rows)

IsTaken-among :
    (stored : List Activity) (batches : List (List Activity)) (rows : List Activity)
    → All (IsTaken stored) batches
    → Any (λ other. other ≡ rows) batches
    → IsTaken stored rows
IsTaken-among stored [] rows h among = elim among [ ]
IsTaken-among stored (other ∷ batches) rows h (inl e) = subst (IsTaken stored) e h.0
IsTaken-among stored (other ∷ batches) rows h (inr k) = IsTaken-among stored batches rows h.1 k

-- Behind a sequence of batches, batches that are among them change nothing.
pub deliver-repeated :
    (batches again : List (List Activity)) (stored : List Activity)
    → All (λ rows. Any (λ other. other ≡ rows) batches) again
    → deliver stored (batches ++ again) ≡ deliver stored batches
deliver-repeated batches again stored repeats =
    let taken =
      All-imp _ _ again
        (λ rows k.
          IsTaken-among (deliver stored batches) batches rows (deliver-IsTaken batches stored) k)
        repeats in
    deliver-append batches again stored ∙ deliver-again again (deliver stored batches) taken
