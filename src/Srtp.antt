-- ===== src/Srtp.antt =====
-- Packet indices, the replay window and the packet shapes of modules/common/srtp_core.rs.
pub mod Window
pub mod Rollover
pub mod Gcm
pub mod Cm
pub mod Keys
mod Runs
use wave.Common.{
  ℕ, ◌+◌, ◌-◌, ◌*◌, ◌/◌, ◌%◌, ◌^◌, Bool, true, false, ◌&&◌, ◌||◌, Option, none, some, List, length,
  take, drop, slice, get_or, ltb, leb, ◌==◌, ◌!=◌, if◌then◌else◌, bit_and, bit_or,
}
use wave.Common.Bytes.{from32}

-- `SrtpReplay`
pub record Replay : Type 0 where
  pub highest : ℕ
  pub bitmap : ℕ
  pub initialized : Bool

-- `new` and `default`
unfoldable pub create : Replay
create = record { highest = 0; bitmap = 0; initialized = false }

-- `SrtpReplay::accept`
unfoldable pub accept : Replay → ℕ → Bool × Replay
accept w index =
    let shift = index - w.highest in
    let back = w.highest - index in
    if w.initialized
    then if ltb w.highest index
      then (
        true,
        record w {
          bitmap = if leb 64 shift then 1 else bit_or (w.bitmap * 2 ^ shift % 2 ^ 64) 1;
          highest = index;
        },
      )
      else if leb 64 back || (bit_and w.bitmap (2 ^ back) != 0)
      then (false, w)
      else (true, record w { bitmap = bit_or w.bitmap (2 ^ back) })
    else (true, record { initialized = true; highest = index; bitmap = 1 })

-- `SrtpReplay::highest`
unfoldable pub highest : Replay → Option ℕ
highest w = if w.initialized then some w.highest else none

unfoldable pub estimate_roc : ℕ → ℕ → ℕ
estimate_roc last_index sequence =
    let last_seq = last_index % 2 ^ 16 in
    let last_roc = last_index / 2 ^ 16 in
    if ltb sequence 0x8000 && (ltb 0x8000 last_seq && ltb 0 last_roc)
    then last_roc - 1
    else if ltb 0x8000 sequence && ltb last_seq 0x8000
    then last_roc + 1
    else last_roc

unfoldable pub packet_index : ℕ → ℕ → ℕ
packet_index roc sequence = bit_or (roc * 2 ^ 16) sequence

abbrev pub srtcp_index_len : ℕ
srtcp_index_len = 4

unfoldable pub validate_srtp_packet : List ℕ → ℕ → Option (List ℕ × List ℕ)
validate_srtp_packet packet tag_len =
    let split = length packet - tag_len in
    if (tag_len == 0) || leb (length packet) tag_len
    then none
    else some (take split packet, drop split packet)

unfoldable pub validate_srtcp_packet : List ℕ → ℕ → Option (List ℕ × ℕ × List ℕ)
validate_srtcp_packet packet tag_len =
    let tag_at = length packet - tag_len in
    let index_at = tag_at - srtcp_index_len in
    let byte = λ (i : ℕ). get_or packet (index_at + i) 0 in
    if ltb (length packet) (srtcp_index_len + tag_len)
    then none
    else some (take index_at packet, from32 (byte 3) (byte 2) (byte 1) (byte 0), drop tag_at packet)
