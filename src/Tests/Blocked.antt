-- ===== src/Tests/Blocked.antt =====
-- A replay of eleven creation events and a thousand and one other batches, and a short turn.
use lend_worker_stellar.Base.{
  ℕ, zero, suc, pos, ◌++◌, Text, lit, text_eq, is_empty, collect_all, string_member, obj, field,
  str, end, List, [], ◌∷◌, length, ◌≡◌, none, err, refl, arith,
}
use lend_worker_stellar.Config.Env.{LocalEnv, new}
use lend_worker_stellar.Domain.Operation.{FundingStatus}
use lend_worker_stellar.Domain.Activity.{Activity, ActivityEventType}
use lend_worker_stellar.Storage.Activities.{insert_many}
use lend_worker_stellar.Storage.Activities
use lend_worker_stellar.Storage.Operations
use lend_worker_stellar.Storage.Operations.{op_created_data}
use lend_worker_stellar.Chain.EventLoop.Start.{initial}
use lend_worker_stellar.App.Handler.{process_events}
use lend_worker_stellar.App.Discovery.{is_soroban_address}
use lend_worker_stellar.System.{Around}
use lend_worker_stellar.System.Channels.{Tasks, row_sent, Move, Exchanges, here, next, IsStuck}
use lend_worker_stellar.System.Channels.Free.{Exchanges-Move}
use lend_worker_stellar.System.Channels.Stuck.{Announcing, Exchanges-IsStuck}
use lend_worker_stellar.Tests.Store.{activity, tables}
use lend_worker_stellar.Tests.Syncs.{unset, world, token}

abbrev cfg : LocalEnv
cfg = new unset

abbrev creation : Text → List Activity
creation hash =
    record (activity ActivityEventType.op_created hash) {
      payload = obj (
          field (lit "tx_hash") (str hash) (
            field (lit "op_token") (str token) (field (lit "total_shares") (str (lit "100")) end)));
    }
    ∷ []

abbrev front : List (List Activity)
front =
    creation (lit "a")
    ∷ creation (lit "b")
    ∷ creation (lit "c")
    ∷ creation (lit "d")
    ∷ creation (lit "e")
    ∷ creation (lit "f")
    ∷ creation (lit "g")
    ∷ creation (lit "h")
    ∷ creation (lit "i")
    ∷ creation (lit "j")
    ∷ creation (lit "k")
    ∷ []

announcing : Announcing cfg (pos 9) (world (tables [] FundingStatus.upcoming)) front
unfolding insert_many op_created_data is_soroban_address lit text_eq string_member process_events
    Operations.get_unfinished_operations Operations.get_ongoing_operations
    Operations.add_first_chain Activities.get_operation_status_history is_empty new
    Operations.get_all Operations.update_operation_status collect_all
announcing = (
  _,
  refl,
  (
    _,
    refl,
    (
      _,
      refl,
      (_, refl, (_, refl, (_, refl, (_, refl, (_, refl, (_, refl, (_, refl, (_, refl, tt)))))))),
    ),
  ),
)

abbrev copies : ℕ → List (List Activity)
copies zero = []
copies (suc n) = creation (lit "z") ∷ copies n

length-copies : (n : ℕ) → length (copies n) ≡ n
length-copies zero = refl
length-copies (suc n) = omega (arith, length-copies n)

-- A poll has read them, and the handler waits.
abbrev replayed : Tasks
replayed = record {
  loop = initial cfg;
  world = world (tables [] FundingStatus.upcoming);
  outbox = front ++ copies 1001;
  events = [];
  commands = [];
}

Exchanges-IsStuck_example :
    (t : Tasks) × Exchanges cfg replayed t × IsStuck t × ¬ ((u : Tasks) × Move cfg t u)
Exchanges-IsStuck_example =
    Exchanges-IsStuck cfg (pos 9) replayed front (copies 1001) refl refl refl refl refl
      (omega (arith, length-copies 1001)) announcing

-- One creation event, which the loop sends.
abbrev short : Tasks
short = record replayed { outbox = creation (lit "a") ∷ [] }

abbrev passed : Tasks
passed = record replayed { outbox = []; events = creation (lit "a") ∷ [] }

abbrev silent : Around
silent = record {
  live = λ from ids. err (lit "timeout");
  backfill = none;
  lookup = λ fop. err (lit "timeout");
}

Exchanges-Move_example : (u : Tasks) × Move cfg passed u
Exchanges-Move_example =
    Exchanges-Move cfg silent (pos 9) short passed (omega arith)
      (next here (row_sent refl (omega arith) refl))
