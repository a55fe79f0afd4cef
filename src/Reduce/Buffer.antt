-- ===== src/Reduce/Buffer.antt =====
-- `MessageBuffer` of include/__mping/plugin/reproducible_reduce.hpp. A message handed to MPI is put on a
-- list; the wait for it returns. The message that a receive brings is a parameter, `none` if none comes;
-- it is no longer than the room that the receive offers.
pub mod Fifo
pub mod Runs
pub mod Values
pub mod Leftover
mod Tests
use mping.Prelude.{
  ℕ, zero, suc, ◌+◌, ◌*◌, Bool, true, false, ◌||◌, List, [], ◌∷◌, ◌++◌, Option, none, some, length,
  ltb, leb, ◌==◌, if◌then◌else◌, kassert, ◌>>=◌, ◌>>◌,
}
use mping.Blocks.{resize, write_at}

pub record MessageBufferEntry {ℓ} (A : Type ℓ) : Type ℓ where
  pub index : ℕ
  pub value : A

-- A message: the rank it is for and its entries.
pub record Message {ℓ} (A : Type ℓ) : Type ℓ where
  pub to_rank : ℕ
  pub entries : List (MessageBufferEntry A)

pub record MessageBuffer {ℓ} (A : Type ℓ) : Type ℓ where
  pub inbox : List (MessageBufferEntry A)
  -- `_buffer`, into which messages are received.
  pub buffer : List (MessageBufferEntry A)
  pub target_rank : Option ℕ
  pub outbox : List (MessageBufferEntry A)
  pub sent_messages : ℕ
  pub sent_elements : ℕ
  pub send_buffer_clear : Bool
  -- What `isend` has been given.
  pub dispatched : List (Message A)
  -- What the type `T` determines: `T()` and `sizeof(MessageBufferEntry<T>)`.
  pub default_value : A
  pub entry_bytes : ℕ

abbrev pub max_message_length : ℕ
max_message_length = 4

abbrev pub is_empty {ℓ} : {A : Type ℓ} → List A → Bool
is_empty [] = true
is_empty (x ∷ xs) = false

-- Is the buffer for another rank than this one?
abbrev pub addressed_to_other : Option ℕ → ℕ → Bool
addressed_to_other none target = false
addressed_to_other (some t) target = if t == target then false else true

module _ {ℓ} {A : Type ℓ} where
  unfoldable pub fresh : A → ℕ → MessageBuffer A
  fresh default_value entry_bytes = record {
    inbox = [];
    buffer = [];
    target_rank = none;
    outbox = [];
    sent_messages = 0;
    sent_elements = 0;
    send_buffer_clear = true;
    dispatched = [];
    default_value = default_value;
    entry_bytes = entry_bytes;
  }

  -- `_inbox[index] = value`
  abbrev pub assign : ℕ → A → List (MessageBufferEntry A) → List (MessageBufferEntry A)
  assign i v [] = record { index = i; value = v } ∷ []
  assign i v (e ∷ inbox) =
      if e.index == i then record { index = i; value = v } ∷ inbox else e ∷ assign i v inbox

  abbrev pub find : ℕ → List (MessageBufferEntry A) → Option A
  find i [] = none
  find i (e ∷ inbox) = if e.index == i then some e.value else find i inbox

  abbrev pub erase : ℕ → List (MessageBufferEntry A) → List (MessageBufferEntry A)
  erase i [] = []
  erase i (e ∷ inbox) = if e.index == i then inbox else e ∷ erase i inbox

  abbrev pub assign_all :
      List (MessageBufferEntry A) → List (MessageBufferEntry A) → List (MessageBufferEntry A)
  assign_all [] inbox = inbox
  assign_all (e ∷ buffer) inbox = assign_all buffer (assign e.index e.value inbox)

  -- `_buffer` after the receive: it is resized to the count, which is in bytes, and then starts with the
  -- message; what stood behind, or new entries of index 0, follow.
  abbrev pub received : List (MessageBufferEntry A) → MessageBuffer A → List (MessageBufferEntry A)
  received message s = write_at 0 message (
      resize (record { index = 0; value = s.default_value }) (max_message_length * s.entry_bytes)
        s.buffer)

  -- All of `_buffer` goes to the inbox.
  pub receive : List (MessageBufferEntry A) → MessageBuffer A → MessageBuffer A
  receive message s = record s {
    buffer = received message s;
    inbox = assign_all (received message s) s.inbox;
  }

  abbrev pub flush_to : Option ℕ → MessageBuffer A → MessageBuffer A
  flush_to none s = s
  flush_to (some t) s = if is_empty s.outbox then s else record s {
    target_rank = none;
    sent_messages = suc s.sent_messages;
    send_buffer_clear = false;
    dispatched = s.dispatched ++ record { to_rank = t; entries = s.outbox } ∷ [];
  }

  pub flush : MessageBuffer A → MessageBuffer A
  flush s = flush_to s.target_rank s

  pub wait : MessageBuffer A → MessageBuffer A
  wait s = if s.send_buffer_clear then s else record s { outbox = []; send_buffer_clear = true }

  -- The two parts of `put`: make the outbox ready for the target, then store the entry.
  pub prepare : ℕ → MessageBuffer A → MessageBuffer A
  prepare target s = wait (
      if leb max_message_length (length s.outbox) || addressed_to_other s.target_rank target
      then flush s
      else s)

  pub store : ℕ → ℕ → A → MessageBuffer A → MessageBuffer A
  store target i v s =
      let stored = record s {
        target_rank = some target;
        outbox = s.outbox ++ record { index = i; value = v } ∷ [];
      } in
      let ready = if leb max_message_length (length stored.outbox) then flush stored else stored in
      record ready { sent_elements = suc ready.sent_elements }

  -- The capacity is what the constructor reserves.
  pub put : ℕ → ℕ → A → MessageBuffer A → Option (MessageBuffer A)
  put target i v s =
      kassert (ltb (length (prepare target s).outbox) (suc max_message_length))
      >> some (store target i v (prepare target s))

  abbrev pub take_from : Option A → ℕ → MessageBuffer A → Option (A × MessageBuffer A)
  take_from none i s = none
  take_from (some v) i s = some (v, record s { inbox = erase i s.inbox })

  abbrev pub take_or_receive :
      Option A
      → (ℕ → Option (List (MessageBufferEntry A)))
      → ℕ
      → ℕ
      → MessageBuffer A
      → Option (A × MessageBuffer A)
  take_or_receive (some v) recv source i s = take_from (some v) i s
  take_or_receive none recv source i s = do
    message ← recv source
    let informed = receive message (wait (flush s))
    take_from (find i informed.inbox) i informed

  pub get :
      (ℕ → Option (List (MessageBufferEntry A)))
      → ℕ
      → ℕ
      → MessageBuffer A
      → Option (A × MessageBuffer A)
  get recv source i s = take_or_receive (find i s.inbox) recv source i s

-- The calls that a program makes; `gets` comes with what the receive of that call brings.
pub data Operation {ℓ} (A : Type ℓ) : Type ℓ where
  puts : ℕ → ℕ → A → Operation A
  flushes : Operation A
  gets : ℕ → ℕ → Option (List (MessageBufferEntry A)) → Operation A

module _ {ℓ} {A : Type ℓ} where
  pub operate : Operation A → MessageBuffer A → Option (MessageBuffer A)
  operate (puts target i v) s = put target i v s
  operate flushes s = some (flush s)
  operate (gets source i brought) s = do result ← get (λ r. brought) source i s; some (result.1)

  pub run : List (Operation A) → MessageBuffer A → Option (MessageBuffer A)
  run [] s = some s
  run (o ∷ os) s = do s' ← operate o s; run os s'
