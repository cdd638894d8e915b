-- ===== src/Chain/EventSource/Rpc.antt =====
-- `RpcEventSource`: `to_raw`, one batch of contracts page by page, and the sweep over all batches.
pub mod Order
pub mod Paging
pub mod Window
pub mod Resume
pub mod Chunks
pub mod Whole
use lend_worker_stellar.Base.{
  ℕ, zero, suc, ◌+◌, ℤ, pos, negsuc, ◌%◌, ◌-◌, ◌^◌, wrap_i32, add_i32, max_ℤ, min_ℤ, ltb_ℤ, Text,
  lit, text_leb, is_empty, Bool, true, false, ◌||◌, ltb, if◌then◌else◌, Option, none, some,
  unwrap_or, List, [], ◌∷◌, ◌++◌, map, length, take, drop, Result, ok, err, map_err, collect_all,
  ◌>>=◌,
}
use lend_worker_stellar.Domain.Operation.{Time}
use lend_worker_stellar.Domain.Build.{as_i32}
use lend_worker_stellar.Chain.Scval.{ScVal}
use lend_worker_stellar.Chain.EventSource.Raw.{RawSorobanEvent, event_index_from_id}
use lend_worker_stellar.Chain.EventSource.Range.{rejected_above_tip}
use lend_worker_stellar.Chain.EventSource.Retry.{
  RpcEvent, GetEventsResponse, EventStart, ledger, cursor, Client, Attempted, get_events_retrying,
}

-- MAX_CONTRACT_IDS_PER_FILTER, and the page limit of `RpcEventSource::new`
abbrev pub max_contract_ids_per_filter : ℕ
max_contract_ids_per_filter = 5

abbrev pub page_limit : ℕ
page_limit = 10_000

-- `as u32`
unfoldable pub as_u32_word : ℤ → ℕ
as_u32_word (pos n) = n % 2 ^ 32
as_u32_word (negsuc n) = 2 ^ 32 - 1 - n % 2 ^ 32

-- an event with the id that orders it
abbrev pub Tagged : Type 0
Tagged = Text × RawSorobanEvent

-- `slice::chunks`; the first argument bounds the number of chunks.
unfoldable chunks_go {ℓ} : {A : Type ℓ} → ℕ → ℕ → List A → List (List A)
chunks_go zero n xs = []
chunks_go (suc f) n [] = []
chunks_go (suc f) n (x ∷ xs) = take n (x ∷ xs) ∷ chunks_go f n (drop n (x ∷ xs))

unfoldable pub chunks {ℓ} : {A : Type ℓ} → ℕ → List A → List (List A)
unfolding chunks_go
chunks n xs = chunks_go (length xs) n xs

-- `(ledger_seq, id) <= (ledger_seq, id)`
unfoldable pub chain_leb : Tagged → Tagged → Bool
chain_leb a b =
    if ltb_ℤ a.1.ledger_seq b.1.ledger_seq
    then true
    else if ltb_ℤ b.1.ledger_seq a.1.ledger_seq
    then false
    else text_leb a.0 b.0

-- `sort_unstable_by` on that key
unfoldable pub insert_by_chain : Tagged → List Tagged → List Tagged
unfolding chain_leb
insert_by_chain a [] = a ∷ []
insert_by_chain a (b ∷ l) = if chain_leb a b then a ∷ b ∷ l else b ∷ insert_by_chain a l

unfoldable pub sort_by_chain : List Tagged → List Tagged
unfolding insert_by_chain
sort_by_chain [] = []
sort_by_chain (a ∷ l) = insert_by_chain a (sort_by_chain l)

-- `max_ledger.map_or(ledger_seq, |m| m.max(ledger_seq))`
unfoldable pub max_with : Option ℤ → ℤ → Option ℤ
max_with none l = some l
max_with (some m) l = some (max_ℤ m l)

-- `next.map_or(batch_next, |n| n.min(batch_next))`
unfoldable pub min_with : Option ℤ → ℤ → Option ℤ
min_with none l = some l
min_with (some m) l = some (min_ℤ m l)

-- The ledger to resume from, after the last page.
unfoldable pub resume_from : Option ℤ → ℤ → ℤ → ℤ
resume_from (some m) latest_ledger start_ledger = add_i32 m (pos 1)
resume_from none latest_ledger start_ledger = max_ℤ (add_i32 latest_ledger (pos 1)) start_ledger

-- The XDR and RFC 3339 parsers are other crates'.
module _ (from_xdr_base64 : Text → Result ScVal) (from_rfc3339 : Text → Option Time) where
  -- `parse_ledger_time`
  unfoldable pub parse_ledger_time : Text → Time
  parse_ledger_time s = unwrap_or (pos 0) (from_rfc3339 s)

  -- `to_raw`, on the event's own fields
  unfoldable pub to_raw : RpcEvent → Result RawSorobanEvent
  unfolding parse_ledger_time
  to_raw e = do
    topics ← map_err (λ m. lit "topic xdr decode: " ++ m) (collect_all from_xdr_base64 e.topic)
    value ← map_err (λ m. lit "value xdr decode: " ++ m) (from_xdr_base64 e.value)
    ok (record {
      tx_hash = unwrap_or e.id e.tx_hash;
      event_index = event_index_from_id e.id;
      contract_id = e.contract_id;
      topics = topics;
      value = value;
      ledger_seq = as_i32 e.ledger;
      ledger_closed_at = parse_ledger_time e.ledger_closed_at;
    })

  -- The `for` over a page: the highest ledger so far, and the events so far.
  unfoldable pub push_events :
      List RpcEvent → Option ℤ → List Tagged → Result (Option ℤ × List Tagged)
  unfolding to_raw max_with
  push_events [] max_ledger out = ok (max_ledger, out)
  push_events (e ∷ es) max_ledger out = do
    let rest = push_events es (max_with max_ledger (as_i32 e.ledger))
    raw ← to_raw e
    rest (out ++ (e.id, raw) ∷ [])

  module _ (client : Client) where
    -- A failed request: a first request past the chain tip holds the cursor.
    unfoldable pub held_or_failed : EventStart → ℤ → Text → Result ℤ
    held_or_failed (ledger n) start_ledger e = elim (rejected_above_tip e start_ledger) [
      | some tip ↦ ok start_ledger
      | none ↦ err e
    ]
    held_or_failed (cursor c) start_ledger e = err e

    -- The paging loop of `fetch_batch`; `none` means that the fuel, one unit a page, ran out. The
    -- result is the resume ledger, the events, and the number of the next call.
    unfoldable pub batch_loop :
        ℕ
        → ℤ
        → List Text
        → EventStart
        → Option ℤ
        → List Tagged
        → ℕ
        → Option (Result (ℤ × List Tagged) × ℕ)
    unfolding get_events_retrying push_events held_or_failed resume_from
    batch_loop zero start_ledger ids start max_ledger out now = none
    batch_loop (suc f) start_ledger ids start max_ledger out now =
        let a = get_events_retrying client page_limit start ids now in
        elim a.reply [
          | err e ↦
              some ((do held ← held_or_failed start start_ledger e; ok (held, out)), a.next_call)
          | ok resp ↦ elim (push_events resp.events max_ledger out) [
            | err e ↦ some (err e, a.next_call)
            | ok pushed ↦
                let rest =
                  batch_loop f start_ledger ids (cursor resp.cursor) pushed.0 pushed.1
                    a.next_call in
                if ltb (length resp.events) page_limit || is_empty resp.cursor
                then some (
                  ok (resume_from pushed.0 (as_i32 resp.latest_ledger) start_ledger, pushed.1),
                  a.next_call,
                )
                else rest
          ]
        ]

    unfoldable pub fetch_batch :
        ℕ → ℤ → List Text → List Tagged → ℕ → Option (Result (ℤ × List Tagged) × ℕ)
    unfolding batch_loop as_u32_word
    fetch_batch fuel start_ledger ids out now =
        batch_loop fuel start_ledger ids (ledger (as_u32_word start_ledger)) none out now

    -- The `for` over the batches: a failed batch ends the sweep and discards what was read.
    unfoldable pub sweep :
        ℕ
        → ℤ
        → List (List Text)
        → List Tagged
        → Option ℤ
        → ℕ
        → Option (Result (Option ℤ × List Tagged) × ℕ)
    unfolding fetch_batch min_with
    sweep fuel start_ledger [] merged next now = some (ok (next, merged), now)
    sweep fuel start_ledger (batch ∷ batches) merged next now =
        let rest = sweep fuel start_ledger batches in
        elim (fetch_batch fuel start_ledger batch merged now) [
          | none ↦ none
          | some (err e, now') ↦ some (err e, now')
          | some (ok (batch_next, merged'), now') ↦ rest merged' (min_with next batch_next) now'
        ]

    -- `fetch` of the live source
    unfoldable pub fetch : ℕ → ℤ → List Text → ℕ → Option (Result (List RawSorobanEvent × ℤ) × ℕ)
    unfolding sweep chunks sort_by_chain
    fetch fuel start_ledger contract_ids now =
        elim (sweep fuel start_ledger (chunks max_contract_ids_per_filter contract_ids) [] none
          now) [
            | none ↦ none
            | some (err e, now') ↦ some (err e, now')
            | some (ok (next, merged), now') ↦
                some (ok (map (λ t. t.1) (sort_by_chain merged), unwrap_or start_ledger next), now')
          ]
