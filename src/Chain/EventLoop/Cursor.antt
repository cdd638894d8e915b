-- ===== src/Chain/EventLoop/Cursor.antt =====
-- How commands and polls move the cursor.
use mathlib.Core.List.{foldl}
use lend_worker_stellar.Base.{
  ℤ, pos, ◌≤ℤ◌, ltb_ℤ, max_ℤ, add_i32, Text, Bool, true, false, Option, none, some, List, [], ◌∷◌,
  All, keys, text_key, ok, Result-cases, Bool-cases, ◌≡◌, refl, sym, ◌∙◌, inl, inr, arith,
}
use mathlib.Core.Path.{subst}
use lend_worker_stellar.Config.Types.{
  ObservableContract, OpMapping, IndexerCommand, update_contracts,
}
use lend_worker_stellar.Domain.Activity.{Activity}
use lend_worker_stellar.Chain.EventSource.Raw.{RawSorobanEvent}
use lend_worker_stellar.Chain.EventLoop.{
  LoopState, Context, Source, Replay, track, apply_command, drain, turn, route, choose, is_idle,
  forward, arrived, recover, poll, classify_fetch_error, Attempt, backfill_archival,
}
use lend_worker_stellar.Chain.EventLoop.Errors.{poll-failed}

≤ℤ_trans : (a b c : ℤ) → a ≤ℤ b → b ≤ℤ c → a ≤ℤ c
≤ℤ_trans a b c h k = omega arith

track-le :
    (low : ℤ) (s : LoopState) (c : ObservableContract)
    → (s.cursor ≤ℤ (track low s c).cursor)
      × (low ≤ℤ (track low s c).cursor)
      × (add_i32 c.latest_block (pos 1) ≤ℤ (track low s c).cursor)
unfolding track max_ℤ
track-le low s c = ground arith

foldl-track-le :
    (low : ℤ) (s : LoopState) (cs : List ObservableContract)
    → (s.cursor ≤ℤ (foldl (track low) s cs).cursor)
      × All (λ c. add_i32 c.latest_block (pos 1) ≤ℤ (foldl (track low) s cs).cursor) cs
foldl-track-le low s [] = (omega arith, tt)
foldl-track-le low s (c ∷ cs) =
    let (kept, _, reached) = track-le low s c in
    let (later, rest) = foldl-track-le low (track low s c) cs in
    (
      ≤ℤ_trans s.cursor (track low s c).cursor (foldl (track low) (track low s c) cs).cursor kept
          later,
      (
        ≤ℤ_trans (add_i32 c.latest_block (pos 1)) (track low s c).cursor
            (foldl (track low) (track low s c) cs).cursor reached later,
        rest,
      ),
    )

-- A command never moves the cursor back, and leaves it behind the last indexed ledger of every
-- contract that it names.
pub apply_command-le :
    (low : ℤ) (s : LoopState) (cs : List ObservableContract) (mapping : OpMapping)
    → (s.cursor ≤ℤ (apply_command low s (update_contracts cs mapping)).cursor)
      × All
          (λ c.
            add_i32 c.latest_block (pos 1)
            ≤ℤ (apply_command low s (update_contracts cs mapping)).cursor)
          cs
unfolding apply_command
apply_command-le low s cs mapping = foldl-track-le low s cs

track-same :
    (low : ℤ) (s : LoopState) (c : ObservableContract)
    → low ≤ℤ s.cursor
    → add_i32 c.latest_block (pos 1) ≤ℤ s.cursor
    → (track low s c).cursor ≡ s.cursor
unfolding track max_ℤ
track-same low s c h k = ground arith

foldl-track-same :
    (low : ℤ) (s : LoopState) (cs : List ObservableContract)
    → low ≤ℤ s.cursor
    → All (λ c. add_i32 c.latest_block (pos 1) ≤ℤ s.cursor) cs
    → (foldl (track low) s cs).cursor ≡ s.cursor
foldl-track-same low s [] h k = refl
foldl-track-same low s (c ∷ cs) h k =
    let same = track-same low s c h k.0 in
    foldl-track-same low (track low s c) cs (rw same h)
      (subst (λ x. All (λ d. add_i32 d.latest_block (pos 1) ≤ℤ x) cs) (sym same) k.1)
    ∙ same

-- A contract that is discovered later does not bring the cursor back: if no contract of the command
-- was indexed past the cursor, the cursor stays, although the new contract's own ledgers below it
-- have never been asked for.
apply_command-no_rewind :
    (low : ℤ) (s : LoopState) (cs : List ObservableContract) (mapping : OpMapping)
    → low ≤ℤ s.cursor
    → All (λ c. add_i32 c.latest_block (pos 1) ≤ℤ s.cursor) cs
    → (apply_command low s (update_contracts cs mapping)).cursor ≡ s.cursor
unfolding apply_command
apply_command-no_rewind low s cs mapping h k = foldl-track-same low s cs h k

-- What `EventSource::fetch` promises of the ledger to resume from.
pub record Progresses (source : Source) (start : ℤ) : Type 0 where
  pub resumes :
      (ids : List Text) (events : List RawSorobanEvent) (next : ℤ)
      → source start ids ≡ ok (events, next)
      → start ≤ℤ next

pub record AllProgress (ctx : Context) (start : ℤ) : Type 0 where
  pub of_live : Progresses ctx.live start
  pub of_replay : (r : Replay) → ctx.backfill ≡ some r → Progresses r.source start

choose-Progresses :
    (live : Source) (cursor : ℤ) (floor : Option ℤ) (backfill : Option Replay)
    → Progresses live cursor
    → ((r : Replay) → backfill ≡ some r → Progresses r.source cursor)
    → Progresses (choose live cursor floor backfill).0 cursor
choose-Progresses live cursor floor none l r = l
choose-Progresses live cursor none (some x) l r = l
choose-Progresses live cursor (some f) (some x) l r = elim (Bool-cases (ltb_ℤ cursor f)) [
  | inl below ↦ rw below (r x refl)
  | inr above ↦ rw above l
]

recover-le :
    (s : LoopState) (e : Text) (a : Attempt)
    → s.cursor ≤ℤ (recover s (classify_fetch_error e s.cursor a)).cursor
unfolding classify_fetch_error
recover-le s e backfill_archival = omega arith
recover-le s e a = ground arith

pub poll-arrived :
    (ctx : Context) (s : LoopState) (events : List RawSorobanEvent) (next : ℤ)
    → is_idle s ≡ false
    → (route ctx s).0 s.cursor (keys s.contracts) ≡ ok (events, next)
    → poll ctx s ≡ arrived s next (forward ctx s ctx.open_for events)
unfolding poll
poll-arrived ctx s events next busy answered = ground arith

arrived-le :
    (s : LoopState) (next : ℤ) (f : List (List Activity) × Bool)
    → s.cursor ≤ℤ next
    → s.cursor ≤ℤ (arrived s next f).state.cursor
arrived-le s next (sent, true) h = omega arith
arrived-le s next (sent, false) h = h

pub poll-idle : (ctx : Context) (s : LoopState) → is_idle s ≡ true → (poll ctx s).state ≡ s
unfolding poll
poll-idle ctx s idle = ground arith

pub poll-le :
    (ctx : Context) (s : LoopState)
    → AllProgress ctx s.cursor
    → s.cursor ≤ℤ (poll ctx s).state.cursor
poll-le ctx s progress = elim (Bool-cases (is_idle s)) [
  | inl idle ↦ rw (poll-idle ctx s idle) (omega arith)
  | inr busy ↦ elim (Result-cases ((route ctx s).0 s.cursor (keys s.contracts))) [
    | inl ((events, next), e) ↦
        let ahead =
          (choose-Progresses ctx.live s.cursor s.retention_floor ctx.backfill progress.of_live
              progress.of_replay).resumes
            (keys s.contracts) events next (unfold route in e) in
        rw (poll-arrived ctx s events next busy e)
          (arrived-le s next (forward ctx s ctx.open_for events) ahead)
    | inr (m, e) ↦ rw (poll-failed ctx s m busy e) (recover-le s m (route ctx s).1)
  ]
]

drain-le :
    (low : ℤ) (s : LoopState) (commands : List IndexerCommand)
    → s.cursor ≤ℤ (drain low s commands).cursor
unfolding drain
drain-le low s [] = omega arith
drain-le low s (update_contracts cs mapping ∷ commands) =
    ≤ℤ_trans s.cursor (apply_command low s (update_contracts cs mapping)).cursor
      (drain low (apply_command low s (update_contracts cs mapping)) commands).cursor
      (apply_command-le low s cs mapping).0
      (drain-le low (apply_command low s (update_contracts cs mapping)) commands)

-- If the sources resume at or behind the ledger that this turn asks for, then the turn does not
-- move the cursor back, whatever commands are pending, and whether the fetch succeeds, fails, or is
-- not made.
pub turn-le :
    (ctx : Context) (low : ℤ) (commands : List IndexerCommand) (s : LoopState)
    → AllProgress ctx (drain low s commands).cursor
    → s.cursor ≤ℤ (turn ctx low commands s).state.cursor
unfolding turn
turn-le ctx low commands s progress =
    ≤ℤ_trans s.cursor (drain low s commands).cursor (poll ctx (drain low s commands)).state.cursor
      (drain-le low s commands) (poll-le ctx (drain low s commands) progress)
