-- ===== src/Jitter.antt =====
-- modules/common/jitter_core.rs: the bounded RTP reorder window.
-- A method that changes `self` returns the new
-- buffer. A slot's `data` holds exactly the `len` bytes that the code reads back; the bytes behind
-- them are never read. `u16` and `u32` counters keep their wrap-around.
pub mod Invariant
pub mod Advance
pub mod Reach
pub mod Window
pub mod Skip
pub mod Insert
mod Runs
use wave.Common.{
  ℕ, zero, suc, ◌+◌, ◌-◌, ◌%◌, ◌^◌, Bool, true, false, ◌&&◌, not, Option, none, some, List, [], ltb,
  leb, ◌==◌, if◌then◌else◌, length, get_or, set, replicate,
}

abbrev pub slot_size : ℕ
slot_size = 1460

abbrev pub max_slots : ℕ
max_slots = 16

-- `JitterPacketMeta`
pub record Meta : Type 0 where
  pub timestamp : ℕ
  pub ssrc : ℕ
  pub payload_type : ℕ
  pub marker : Bool
  pub codec : ℕ

pub record Slot : Type 0 where
  pub payload : List ℕ
  pub seq : ℕ
  pub full : Bool
  pub info : Meta

abbrev pub empty_meta : Meta
empty_meta = record { timestamp = 0; ssrc = 0; payload_type = 0; marker = false; codec = 0 }

-- `Slot::empty`
abbrev pub empty_slot : Slot
empty_slot = record { payload = []; seq = 0; full = false; info = empty_meta }

pub record Released : Type 0 where
  pub seq : ℕ
  pub info : Meta
  pub payload : List ℕ
  pub lost_before : Bool

pub record JitterBuffer : Type 0 where
  pub slots : List Slot
  pub next_seq : ℕ
  pub based : Bool
  pub fill_count : ℕ
  pub skipped : Bool
  pub packets_received : ℕ
  pub packets_lost : ℕ

-- `JitterBuffer::new`, which `reset` and `default` are too
abbrev pub new : JitterBuffer
new = record {
  slots = replicate max_slots empty_slot;
  next_seq = 0;
  based = false;
  fill_count = 0;
  skipped = false;
  packets_received = 0;
  packets_lost = 0;
}

pub reset : JitterBuffer → JitterBuffer
reset b = new

-- `a.wrapping_sub(b)` and `a.wrapping_add(1)` on `u16`
abbrev pub sub16 : ℕ → ℕ → ℕ
sub16 a b = (a + 2 ^ 16 - b) % 2 ^ 16

abbrev pub next16 : ℕ → ℕ
next16 a = (a + 1) % 2 ^ 16

-- `self.slots[seq as usize % JITTER_MAX_SLOTS]`
abbrev pub slot_of : JitterBuffer → ℕ → Slot
slot_of b seq = get_or b.slots (seq % max_slots) empty_slot

-- `if !self.based { self.based = true; self.next_seq = seq; }`
pub rebase : ℕ → JitterBuffer → JitterBuffer
rebase seq b = if b.based then b else record b { based = true; next_seq = seq }

-- The write of the slot at the end of `insert`.
pub store : ℕ → List ℕ → Meta → JitterBuffer → JitterBuffer
store seq payload info b = record b {
  slots =
      set b.slots (seq % max_slots)
        (record { payload = payload; seq = seq; full = true; info = info });
  fill_count = (b.fill_count + 1) % 2 ^ 16;
}

pub insert : ℕ → List ℕ → Meta → JitterBuffer → Bool × JitterBuffer
insert seq payload info b =
    let counted = record b { packets_received = (b.packets_received + 1) % 2 ^ 32 } in
    let based = rebase seq counted in
    if ltb slot_size (length payload)
    then (false, counted)
    else if leb max_slots (sub16 seq based.next_seq)
    then (false, based)
    else if (slot_of based seq).full
    then (false, based)
    else (true, store seq payload info based)

pub next_ready : JitterBuffer → Bool
next_ready b = let slot = slot_of b b.next_seq in b.based && (slot.full && (slot.seq == b.next_seq))

pub waiting_on_hole : JitterBuffer → Bool
unfolding next_ready
waiting_on_hole b = ltb 0 b.fill_count && not (next_ready b)

-- `while !self.next_ready() && skipped < 16 { next_seq += 1; skipped += 1 }`, with the rounds left
-- as the fuel: the second test bounds them by 16.
pub skip_loop : ℕ → JitterBuffer → ℕ → ℕ × JitterBuffer
unfolding next_ready
skip_loop zero b skipped = (skipped, b)
skip_loop (suc rounds) b skipped = elim (next_ready b) [
  | true ↦ (skipped, b)
  | false ↦ skip_loop rounds (record b { next_seq = next16 b.next_seq }) (skipped + 1)
]

pub skip_hole : JitterBuffer → ℕ × JitterBuffer
unfolding waiting_on_hole skip_loop
skip_hole b =
    let (n, after) = skip_loop max_slots b 0 in
    if not (waiting_on_hole b)
    then (0, b)
    else (n, record after { packets_lost = (b.packets_lost + n) % 2 ^ 32; skipped = true })

pub peek : JitterBuffer → Option Released
unfolding next_ready
peek b =
    let slot = slot_of b b.next_seq in
    if not (next_ready b)
    then none
    else some (record {
      seq = slot.seq;
      info = slot.info;
      payload = slot.payload;
      lost_before = b.skipped;
    })

pub release : JitterBuffer → JitterBuffer
unfolding next_ready
release b = if not (next_ready b) then b else record b {
  slots = set b.slots (b.next_seq % max_slots) (record (slot_of b b.next_seq) { full = false });
  next_seq = next16 b.next_seq;
  fill_count = sub16 b.fill_count 1;
  skipped = false;
}
