-- ===== src/Chain/EventSource/Rpc/Window.antt =====
-- What `getEvents` documents of the events it serves, and what follows for the highest ledger.
use lend_worker_stellar.Base.{
  ℕ, ◌+◌, ◌<◌, ◌-◌, ◌^◌, ℤ, pos, ◌≤◌, ◌≤ℤ◌, ◌<ℤ◌, Fits, i32_half, add_i32, add_i32-one, +ℤ_parts,
  max_ℤ, max_ℤ-bounds, wrap_i32-of_Fits, Text, Option, none, some, List, All, All-imp, ok, ◌≡◌,
  arith,
}
use lend_worker_stellar.Domain.Build.{as_i32}
use lend_worker_stellar.Chain.EventSource.Retry.{
  RpcEvent, GetEventsResponse, EventStart, ledger, cursor, Client, Attempted, get_events_retrying,
}
use lend_worker_stellar.Chain.EventSource.Retry.Budget.{
  Requests, answered, passed_on, retried, get_events_retrying-Requests,
}
use lend_worker_stellar.Chain.EventSource.Rpc.{page_limit, max_with, resume_from, as_u32_word}

-- The event lies at or behind the requested ledger, and its ledger is below the last i32.
abbrev pub InWindow : ℤ → RpcEvent → Type 0
InWindow start_ledger e = (start_ledger ≤ℤ pos e.ledger) × (e.ledger + 1 < i32_half)

-- The ledger that a request starts from: a cursor names an event, and so a ledger.
abbrev pub asked_from : (Text → ℕ) → EventStart → ℕ
asked_from position (ledger k) = k
asked_from position (cursor c) = position c

-- What `getEvents` documents of one request: the events of its reply lie at or behind the ledger that
-- it starts from, and so does the cursor of the reply, from which the next page starts; and ledger
-- numbers fit an i32.
pub record Serves (client : Client) : Type 0 where
  pub position : Text → ℕ
  pub window :
      (n : ℕ) (start : EventStart) (ids : List Text) (resp : GetEventsResponse)
      → client n start ids page_limit ≡ ok resp
      → All (InWindow (pos (asked_from position start))) resp.events
        × (asked_from position start ≤ position resp.cursor)
        × (resp.latest_ledger + 1 < i32_half)

-- An answer comes from some call of the client.
Requests-answer :
    {client : Client} {start : EventStart} {ids : List Text} {out : Attempted} {left now : ℕ}
    (resp : GetEventsResponse)
    → Requests client page_limit start ids out left now
    → out.reply ≡ ok resp
    → (n : ℕ) × (client n start ids page_limit ≡ ok resp)
Requests-answer resp (answered {now = now} got e r n) h = (now, cc)
Requests-answer resp (passed_on m e w r n) h = cc
Requests-answer resp (retried m e t q) h = Requests-answer resp q h

-- A reply to a request that starts at or behind a ledger has its events and its cursor there, too.
pub reply-window :
    (client : Client) (serves : Serves client) (start_ledger : ℤ) (start : EventStart)
    (ids : List Text) (now : ℕ) (resp : GetEventsResponse)
    → start_ledger ≤ℤ pos (asked_from serves.position start)
    → (get_events_retrying client page_limit start ids now).reply ≡ ok resp
    → All (InWindow start_ledger) resp.events
      × (start_ledger ≤ℤ pos (asked_from serves.position (cursor resp.cursor)))
reply-window client serves start_ledger start ids now resp behind h =
    let (n, e) =
      Requests-answer resp (get_events_retrying-Requests client page_limit start ids now).0 h in
    let (events, further, _) = serves.window n start ids resp e in
    (
      All-imp _ _ resp.events (λ x w. ground (arith, behind, w)) events,
      ground (arith, behind, further),
    )

-- The first request starts at or behind the ledger that the sweep is to start from.
pub as_u32_word-le : (z : ℤ) → Fits i32_half z → z ≤ℤ pos (as_u32_word z)
unfolding as_u32_word
as_u32_word-le z h = ground arith

-- The highest ledger so far, if any, is at or behind the start and can be incremented.
abbrev pub Above : ℤ → Option ℤ → Type 0
Above start_ledger none = Unit
Above start_ledger (some m) = (start_ledger ≤ℤ m) × (m <ℤ pos (2 ^ 31 - 1)) × Fits i32_half m

max_ℤ-Above :
    (start_ledger : ℤ) (m : ℤ) (n : ℕ)
    → Above start_ledger (some m)
    → start_ledger ≤ℤ pos n
    → n + 1 < i32_half
    → Above start_ledger (some (max_ℤ m (pos n)))
unfolding max_ℤ
max_ℤ-Above start_ledger m n h w k = ground arith

pub max_with-Above :
    (start_ledger : ℤ) (m : Option ℤ) (e : RpcEvent)
    → Above start_ledger m
    → InWindow start_ledger e
    → Above start_ledger (max_with m (as_i32 e.ledger))
unfolding max_with
max_with-Above start_ledger none e h w =
    rw (wrap_i32-of_Fits (pos e.ledger) (omega arith)) (omega arith)
max_with-Above start_ledger (some m) e h w =
    rw (wrap_i32-of_Fits (pos e.ledger) (omega arith))
      (max_ℤ-Above start_ledger m e.ledger h w.0 w.1)

pub resume_from-le :
    (start_ledger : ℤ) (m : Option ℤ) (tip : ℕ)
    → Above start_ledger m
    → start_ledger ≤ℤ resume_from m (as_i32 tip) start_ledger
unfolding resume_from
resume_from-le start_ledger none tip h =
    (max_ℤ-bounds (add_i32 (as_i32 tip) (pos 1)) start_ledger).1
resume_from-le start_ledger (some m) tip h =
    rw (add_i32-one m h.2 h.1) (omega (arith, +ℤ_parts m (pos 1)))
