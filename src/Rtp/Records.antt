-- ===== src/Rtp/Records.antt =====
-- modules/common/rtp_wire.rs: the records between the RTP receiver, the jitter buffer and RTCP. A
-- function that fills a buffer returns it beside the count.
pub mod RoundTrip
use wave.Common.{
  ℕ, zero, suc, ◌+◌, ◌-◌, ◌*◌, ◌%◌, ◌^◌, Bool, true, false, ◌||◌, Option, none, some, ◌>>=◌, List,
  [], ◌∷◌, ◌++◌, leb, ltb, ◌==◌, ◌!=◌, if◌then◌else◌, length, get_or, slice, copy_at, replicate,
}
use wave.Common.Bytes.{le16, le32, from16, from32}

abbrev pub meta_len : ℕ
meta_len = 13

-- `RTP_MID_MAX` and `RTP_RX_META_MID_LEN`
abbrev pub mid_max : ℕ
mid_max = 32

abbrev pub meta_mid_len : ℕ
meta_mid_len = 46

-- `RtpReceiveMeta`
pub record ReceiveMeta : Type 0 where
  pub seq : ℕ
  pub timestamp : ℕ
  pub ssrc : ℕ
  pub payload_type : ℕ
  pub marker : Bool
  pub codec : ℕ

unfoldable pub put_meta : List ℕ → ReceiveMeta → Option (ℕ × List ℕ)
put_meta payload meta =
    if ltb (length payload) meta_len
    then none
    else some (
      meta_len,
      copy_at 12 (meta.codec ∷ []) (
          copy_at 11 ((if meta.marker then 1 else 0) ∷ []) (
            copy_at 10 (meta.payload_type ∷ []) (
              copy_at 6 (le32 meta.ssrc)
                (copy_at 2 (le32 meta.timestamp) (copy_at 0 (le16 meta.seq) payload))))),
    )

unfoldable pub parse_meta : List ℕ → Option ReceiveMeta
parse_meta payload =
    let at = λ (i : ℕ). get_or payload i 0 in
    if ltb (length payload) meta_len || ltb 1 (at 11)
    then none
    else some (record {
      seq = from16 (at 0) (at 1);
      timestamp = from32 (at 2) (at 3) (at 4) (at 5);
      ssrc = from32 (at 6) (at 7) (at 8) (at 9);
      payload_type = at 10;
      marker = at 11 != 0;
      codec = at 12;
    })

unfoldable pub put_meta_mid : List ℕ → ReceiveMeta → List ℕ → Option (ℕ × List ℕ)
unfolding put_meta
put_meta_mid payload meta mid =
    if length mid == 0 || (ltb mid_max (length mid) || ltb (length payload) meta_mid_len)
    then none
    else (do
      (at, written) ← put_meta payload meta
      let sized = copy_at at (length mid % 256 ∷ []) written
      let filled = copy_at (at + 1) (replicate mid_max 0) sized
      some (meta_mid_len, copy_at (at + 1) mid filled))

-- The MID in its array of 32 bytes.
unfoldable pub parse_meta_mid : List ℕ → Option (ReceiveMeta × List ℕ × ℕ)
unfolding parse_meta
parse_meta_mid payload =
    let mid_len = get_or payload meta_len 0 in
    if ltb (length payload) meta_mid_len
    then none
    else if mid_len == 0 || ltb mid_max mid_len
    then none
    else (do
      meta ← parse_meta payload
      some (
        meta,
        copy_at 0 (slice payload (meta_len + 1) (meta_len + 1 + mid_len)) (replicate mid_max 0),
        mid_len,
      ))

-- `RTCP_STAT_RX`, `RTCP_STAT_TX` and `RTCP_STAT_RX_META`
abbrev pub tag_rx : ℕ
tag_rx = 1

abbrev pub tag_tx : ℕ
tag_tx = 2

abbrev pub tag_rx_meta : ℕ
tag_rx_meta = 3

unfoldable pub put_stat_rx : List ℕ → ℕ → ℕ → Option (ℕ × List ℕ)
put_stat_rx out seq rtp_ts =
    if ltb (length out) 7
    then none
    else some (7, copy_at 3 (le32 rtp_ts) (copy_at 1 (le16 seq) (copy_at 0 (tag_rx ∷ []) out)))

unfoldable pub put_stat_rx_meta : List ℕ → ℕ → ℕ → ℕ → Option (ℕ × List ℕ)
put_stat_rx_meta out seq rtp_ts ssrc =
    if ltb (length out) 11
    then none
    else some (
      11,
      copy_at 7 (le32 ssrc)
          (copy_at 3 (le32 rtp_ts) (copy_at 1 (le16 seq) (copy_at 0 (tag_rx_meta ∷ []) out))),
    )

unfoldable pub put_stat_tx : List ℕ → ℕ → ℕ → ℕ → Option (ℕ × List ℕ)
put_stat_tx out packets octets rtp_ts =
    if ltb (length out) 13
    then none
    else some (
      13,
      copy_at 9 (le32 rtp_ts)
          (copy_at 5 (le32 octets) (copy_at 1 (le32 packets) (copy_at 0 (tag_tx ∷ []) out))),
    )

-- `RtcpStat`
pub data Stat : Type 0 where
  rx : (seq rtp_ts : ℕ) → Stat
  rx_meta : (seq rtp_ts ssrc : ℕ) → Stat
  tx : (packets octets rtp_ts : ℕ) → Stat

unfoldable pub stat_len : ℕ → Option ℕ
stat_len tag =
    if tag == tag_rx
    then some 7
    else if tag == tag_rx_meta
    then some 11
    else if tag == tag_tx
    then some 13
    else none

-- The record behind a tag, once its length is right.
unfoldable pub stat_body : List ℕ → Option Stat
stat_body buf =
    let at = λ (i : ℕ). get_or buf i 0 in
    if at 0 == tag_rx
    then some (rx (from16 (at 1) (at 2)) (from32 (at 3) (at 4) (at 5) (at 6)))
    else if at 0 == tag_rx_meta
    then some (
        rx_meta (from16 (at 1) (at 2)) (from32 (at 3) (at 4) (at 5) (at 6))
          (from32 (at 7) (at 8) (at 9) (at 10)))
    else if at 0 == tag_tx
    then some (
        tx (from32 (at 1) (at 2) (at 3) (at 4)) (from32 (at 5) (at 6) (at 7) (at 8))
          (from32 (at 9) (at 10) (at 11) (at 12)))
    else none

unfoldable pub parse_stat : List ℕ → Option Stat
unfolding stat_len stat_body
parse_stat [] = none
parse_stat (tag ∷ rest) = do
  want ← stat_len tag
  if length (tag ∷ rest) != want then none else stat_body (tag ∷ rest)
