-- ===== src/System/Loop.antt =====
-- The loop observes contracts of stored operations only.
use mathlib.Core.List.{foldl}
use mathlib.Core.Path.{subst}
use lend_worker_stellar.Base.{ℤ, text_key, All-insert, All-imp, List, [], ◌∷◌, All, sym}
use lend_worker_stellar.Config.Types.{ObservableContract, IndexerCommand, update_contracts}
use lend_worker_stellar.Storage.Tables.{OperationRow}
use lend_worker_stellar.Storage.Operations.Extends.{Extends}
use lend_worker_stellar.Chain.EventLoop.{LoopState, Context, track, apply_command, drain, poll}
use lend_worker_stellar.Chain.EventLoop.Known.{poll-keeps}
use lend_worker_stellar.App.Discovery.Known.{
  KnownMapping, KnownMapping-Extends, KnownContract, KnownCommand,
}

pub record IsKnownLoop (ops : List OperationRow) (s : LoopState) : Type 0 where
  pub mapping : KnownMapping ops s.fopid_to_opid
  pub contracts : All (λ p. KnownContract ops p.1) s.contracts

pub IsKnownLoop-Extends :
    (ops ops' : List OperationRow) (s : LoopState)
    → Extends ops ops'
    → IsKnownLoop ops s
    → IsKnownLoop ops' s
IsKnownLoop-Extends ops ops' s e k = record {
  mapping = KnownMapping-Extends ops ops' s.fopid_to_opid e k.mapping;
  contracts = All-imp _ _ s.contracts (λ p h id q. e id (h id q)) k.contracts;
}

module _ (ops : List OperationRow) (low : ℤ) where
  track-contracts :
      (cs : List ObservableContract) (s : LoopState)
      → All (KnownContract ops) cs
      → All (λ p. KnownContract ops p.1) s.contracts
      → All (λ p. KnownContract ops p.1) (foldl (track low) s cs).contracts
  unfolding track
  track-contracts [] s h k = k
  track-contracts (c ∷ cs) s h k =
      track-contracts cs (track low s c) h.1
        (All-insert (KnownContract ops) c.address c s.contracts h.0 k)

  pub drain-IsKnownLoop :
      (commands : List IndexerCommand) (s : LoopState)
      → All (KnownCommand ops) commands
      → IsKnownLoop ops s
      → IsKnownLoop ops (drain low s commands)
  unfolding drain apply_command
  drain-IsKnownLoop [] s h k = k
  drain-IsKnownLoop (update_contracts cs mapping ∷ commands) s h k =
      drain-IsKnownLoop commands (apply_command low s (update_contracts cs mapping)) h.1
        (record { mapping = h.0.1; contracts = track-contracts cs s h.0.0 k.contracts })

pub poll-IsKnownLoop :
    (ops : List OperationRow) (ctx : Context) (s : LoopState)
    → IsKnownLoop ops s
    → IsKnownLoop ops (poll ctx s).state
poll-IsKnownLoop ops ctx s k = record {
  mapping = subst (KnownMapping ops) (sym (poll-keeps ctx s).1) k.mapping;
  contracts = subst (All (λ p. KnownContract ops p.1)) (sym (poll-keeps ctx s).0) k.contracts;
}
