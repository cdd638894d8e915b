-- ===== src/Chain/EventSource/Backfill/Span.antt =====
-- What the span of a replay sweep keeps, and where it breaks.
use lend_worker_stellar.Base.{
  int_laws, ℕ, zero, suc, ◌-◌, ◌^◌, ℤ, pos, negsuc, ◌≤ℤ◌, ◌<ℤ◌, ◌+ℤ◌, Fits, i32_half, leb_ℤ,
  add_i32, saturating_add_i32, min_ℤ, Bool, true, Bool-cases, some, List, [], ◌∷◌, keep, get_elem?,
  ◌≡◌, inl, inr, arith,
}
use lend_worker_stellar.Chain.EventSource.Raw.{RawSorobanEvent}
use lend_worker_stellar.Chain.EventSource.Backfill.{bounded}

-- An entry that passes the test is among those kept.
get_elem?-keep {ℓ} :
    {A : Type ℓ} (p : A → Bool) (xs : List A) (i : ℕ) (a : A)
    → get_elem? xs i ≡ some a
    → p a ≡ true
    → (j : ℕ) × (get_elem? (keep p xs) j ≡ some a)
get_elem?-keep p [] i a e h = cc
get_elem?-keep p (x ∷ xs) zero a e h = (zero, ground arith)
get_elem?-keep p (x ∷ xs) (suc i) a e h =
    let (j, q) = get_elem?-keep p xs i a e h in
    elim (Bool-cases (p x)) [ inl t ↦ (suc j, rw t q) | inr f ↦ (j, rw f q) ]

-- Below the i32 limit the ceiling is the sum, and so is the ledger behind it.
ceiling_sum :
    (start span : ℤ)
    → Fits i32_half start
    → pos 0 ≤ℤ span
    → start +ℤ span <ℤ pos (2 ^ 31 - 1)
    → (saturating_add_i32 start span ≡ start +ℤ span)
      × (add_i32 (saturating_add_i32 start span) (pos 1) ≡ start +ℤ span +ℤ pos 1)
unfolding saturating_add_i32 add_i32 ◌+ℤ◌
ceiling_sum start span f p h = ground arith

resume_facts :
    (start span next l : ℤ)
    → pos 0 ≤ℤ span
    → start <ℤ next
    → l <ℤ min_ℤ next (start +ℤ span +ℤ pos 1)
    → (leb_ℤ l (start +ℤ span) ≡ true)
      × (min_ℤ next (start +ℤ span +ℤ pos 1) ≤ℤ next)
      × (min_ℤ next (start +ℤ span +ℤ pos 1) ≤ℤ start +ℤ span +ℤ pos 1)
      × (start <ℤ min_ℤ next (start +ℤ span +ℤ pos 1))
unfolding min_ℤ
resume_facts start span next l p k b = grind int_laws

-- The replay resumes at or behind its start if the sweep does.
pub bounded-le :
    (span start : ℤ) (events : List RawSorobanEvent) (next : ℤ)
    → Fits i32_half start
    → pos 0 ≤ℤ span
    → start +ℤ span <ℤ pos (2 ^ 31 - 1)
    → start ≤ℤ next
    → start ≤ℤ (bounded span start (events, next)).1
unfolding bounded min_ℤ
bounded-le span start events next f p h k =
    let (_, behind) = ceiling_sum start span f p h in rw behind (grind int_laws)

module _ (span start : ℤ) (events : List RawSorobanEvent) (next : ℤ) where
  -- If the span is not negative, the start and the span stay within i32, and the sweep made progress,
  -- then the replay drops nothing that it will not ask for again: an event of the sweep below its
  -- resume ledger is kept. It resumes no later than the sweep, at most one ledger behind the span, and
  -- ahead of its start.
  pub bounded_lem :
      (i : ℕ) (e : RawSorobanEvent)
      → Fits i32_half start
      → pos 0 ≤ℤ span
      → start +ℤ span <ℤ pos (2 ^ 31 - 1)
      → start <ℤ next
      → get_elem? events i ≡ some e
      → e.ledger_seq <ℤ (bounded span start (events, next)).1
      → ((j : ℕ) × (get_elem? (bounded span start (events, next)).0 j ≡ some e))
        × ((bounded span start (events, next)).1 ≤ℤ next)
        × ((bounded span start (events, next)).1 ≤ℤ start +ℤ span +ℤ pos 1)
        × (start <ℤ (bounded span start (events, next)).1)
  unfolding bounded
  bounded_lem i e f p h k m b =
      let (sum, behind) = ceiling_sum start span f p h in
      let (low, at_most, near, ahead) =
        resume_facts start span next e.ledger_seq p k (rw behind at b) in
      rw (behind, sum)
        (
          get_elem?-keep (λ x. leb_ℤ x.ledger_seq (start +ℤ span)) events i e m low,
          at_most,
          near,
          ahead,
        )

  -- If the start and the span reach the last i32, and the sweep's resume ledger is an i32, then the
  -- ledger behind the ceiling overflows and the replay resumes at the least i32.
  pub bounded_overflow :
      pos (2 ^ 31 - 1) ≤ℤ start +ℤ span
      → Fits i32_half next
      → (bounded span start (events, next)).1 ≡ negsuc (2 ^ 31 - 1)
  unfolding bounded ◌+ℤ◌
  bounded_overflow h f = ground arith
