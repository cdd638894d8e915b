-- ===== src/Chain/EventLoop/Observed.antt =====
-- A contract that a command lists is observed from the next turn on.
use mathlib.Core.List.{foldl}
use lend_worker_stellar.Base.{
  ℤ, Text, text_eq, get, get-insert, text_key, Bool-cases, some, List, [], ◌∷◌, ◌++◌, Any, ◌≡◌,
  refl, ◌∙◌, inl, inr,
}
use lend_worker_stellar.Base.Strings.Search.{text_eq_refl}
use lend_worker_stellar.Config.Types.{
  OpMapping, ObservableContract, IndexerCommand, update_contracts,
}
use lend_worker_stellar.Chain.EventLoop.{LoopState, track, apply_command, drain}

-- The loop observes the address.
abbrev pub IsObserved : Text → LoopState → Type 0
IsObserved address s = (c : ObservableContract) × (get address s.contracts ≡ some c)

module _ (start_ledger : ℤ) (address : Text) where
  track-IsObserved :
      (s : LoopState) (c : ObservableContract)
      → IsObserved address s
      → IsObserved address (track start_ledger s c)
  unfolding track
  track-IsObserved s c (d, e) = elim (Bool-cases (text_eq c.address address)) [
    | inl same ↦ (c, get-insert c.address address c s.contracts ∙ rw same refl)
    | inr other ↦ (d, get-insert c.address address c s.contracts ∙ rw other e)
  ]

  tracks-IsObserved :
      (cs : List ObservableContract) (s : LoopState)
      → IsObserved address s
      → IsObserved address (foldl (track start_ledger) s cs)
  tracks-IsObserved [] s h = h
  tracks-IsObserved (c ∷ cs) s h =
      tracks-IsObserved cs (track start_ledger s c) (track-IsObserved s c h)

  listed-IsObserved :
      (cs : List ObservableContract) (s : LoopState)
      → Any (λ c. c.address ≡ address) cs
      → IsObserved address (foldl (track start_ledger) s cs)
  unfolding track
  listed-IsObserved [] s h = absurd h
  listed-IsObserved (c ∷ cs) s (inr h) = listed-IsObserved cs (track start_ledger s c) h
  listed-IsObserved (c ∷ cs) s (inl q) =
      tracks-IsObserved cs (track start_ledger s c)
        (c, get-insert c.address address c s.contracts ∙ rw (q, text_eq_refl address) refl)

  pub drain-IsObserved :
      (before : List IndexerCommand) (cs : List ObservableContract) (mapping : OpMapping)
      (s : LoopState)
      → Any (λ c. c.address ≡ address) cs
      → IsObserved address (drain start_ledger s (before ++ update_contracts cs mapping ∷ []))
  unfolding drain apply_command
  drain-IsObserved [] cs mapping s h = listed-IsObserved cs s h
  drain-IsObserved (b ∷ before) cs mapping s h =
      drain-IsObserved before cs mapping (apply_command start_ledger s b) h
