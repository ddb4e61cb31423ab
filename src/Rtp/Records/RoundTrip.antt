-- ===== src/Rtp/Records/RoundTrip.antt =====
-- The records are read back as they were written.
use wave.Common.{
  ℕ, ◌+◌, ◌-◌, ◌%◌, ◌≤◌, ◌≡◌, ◌∙◌, refl, ap, sym, arith, false, ◌||◌, Option, some, List, [], ◌∷◌,
  ◌++◌, length, take, drop, copy_at, replicate, if◌then◌else◌, Bool-cases, inl, inr, take-append,
  drop-append, drop-drop, length-append, length-drop, ltb, ◌==◌,
}
use wave.Common.Bytes.{IsU16, IsU32, le16, le32, from16-bytes, from32-bytes}
use wave.Rtp.Records.{
  ReceiveMeta, put_meta, parse_meta, put_meta_mid, parse_meta_mid, put_stat_rx, put_stat_rx_meta,
  put_stat_tx, Stat, rx, rx_meta, tx, stat_len, stat_body, parse_stat,
}

-- The write of a statistics record.
abbrev pub put_stat : List ℕ → Stat → Option (ℕ × List ℕ)
put_stat out (rx seq rtp_ts) = put_stat_rx out seq rtp_ts
put_stat out (rx_meta seq rtp_ts ssrc) = put_stat_rx_meta out seq rtp_ts ssrc
put_stat out (tx packets octets rtp_ts) = put_stat_tx out packets octets rtp_ts

-- Every field in its machine width.
abbrev pub IsStat : Stat → Type 0
IsStat (rx seq rtp_ts) = IsU16 seq × IsU32 rtp_ts
IsStat (rx_meta seq rtp_ts ssrc) = IsU16 seq × IsU32 rtp_ts × IsU32 ssrc
IsStat (tx packets octets rtp_ts) = IsU32 packets × IsU32 octets × IsU32 rtp_ts

-- A statistics record of machine words is written to every buffer of 13 bytes or more, the bytes written
-- are exactly the record that parses back, and what is behind them is kept.
pub parse_stat-put :
    (s : Stat) (out : List ℕ)
    → IsStat s
    → 13 ≤ length out
    → (n : ℕ) × (written : List ℕ) × (put_stat out s ≡ some (n, written))
      × (parse_stat (take n written) ≡ some s)
      × (drop n written ≡ drop n out)
unfolding put_stat_rx put_stat_rx_meta put_stat_tx stat_len stat_body parse_stat
parse_stat-put (rx seq ts) out (hs, ht) room = (
  7,
  (1 ∷ le16 seq ++ le32 ts) ++ drop 7 out,
  ground arith,
  ground (arith, from16-bytes seq hs, from32-bytes ts ht),
  refl,
)
parse_stat-put (rx_meta seq ts ssrc) out (hs, ht, hc) room = (
  11,
  (3 ∷ le16 seq ++ (le32 ts ++ le32 ssrc)) ++ drop 11 out,
  ground arith,
  ground (arith, from16-bytes seq hs, from32-bytes ts ht, from32-bytes ssrc hc),
  refl,
)
parse_stat-put (tx p o ts) out (hp, ho, ht) room = (
  13,
  (2 ∷ le32 p ++ (le32 o ++ le32 ts)) ++ drop 13 out,
  ground arith,
  ground (arith, from32-bytes p hp, from32-bytes o ho, from32-bytes ts ht),
  refl,
)

-- The fields in their machine widths.
abbrev pub IsMeta : ReceiveMeta → Type 0
IsMeta m = IsU16 m.seq × IsU32 m.timestamp × IsU32 m.ssrc

abbrev pub meta_bytes : ReceiveMeta → List ℕ
meta_bytes m =
    le16 m.seq
    ++ (le32 m.timestamp
        ++ (le32 m.ssrc ++ (m.payload_type ∷ (if m.marker then 1 else 0) ∷ m.codec ∷ [])))

-- The metadata is read back from any bytes that begin with it.
parse_meta-bytes :
    (m : ReceiveMeta) (rest : List ℕ) → IsMeta m → parse_meta (meta_bytes m ++ rest) ≡ some m
unfolding parse_meta
parse_meta-bytes m rest (hs, ht, hc) = elim (Bool-cases m.marker) [
  | inl t ↦
      ground (arith, from16-bytes m.seq hs, from32-bytes m.timestamp ht, from32-bytes m.ssrc hc)
  | inr f ↦
      ground (arith, from16-bytes m.seq hs, from32-bytes m.timestamp ht, from32-bytes m.ssrc hc)
]

-- The bytes of the record with a MID, in front of what the buffer held behind it.
mid_record : ReceiveMeta → List ℕ → List ℕ → List ℕ
mid_record m mid out =
    (meta_bytes m ++ (length mid ∷ []))
    ++ (mid ++ drop (length mid) (replicate 32 0 ++ drop 46 out))

put_meta-bytes :
    (m : ReceiveMeta) (out : List ℕ)
    → 13 ≤ length out
    → put_meta out m ≡ some (13, meta_bytes m ++ drop 13 out)
unfolding put_meta
put_meta-bytes m out room = ground arith

copy_behind :
    (n : ℕ) (mid xs : List ℕ)
    → copy_at n mid xs ≡ take n xs ++ (mid ++ drop (length mid) (drop n xs))
copy_behind n mid xs = ap (λ l. take n xs ++ (mid ++ l)) (sym (drop-drop (length mid) n xs))

put_mid :
    (m : ReceiveMeta) (mid out : List ℕ)
    → 1 ≤ length mid
    → length mid ≤ 32
    → 46 ≤ length out
    → put_meta_mid out m mid ≡ some (46, mid_record m mid out)
unfolding put_meta_mid mid_record
put_mid m mid out low high room =
    let small : length mid % 256 ≡ length mid = omega arith in
    let fits : (length mid == 0 || (ltb 32 (length mid) || ltb (length out) 46)) ≡ false =
      ground arith in
    let front = meta_bytes m ++ length mid ∷ [] in
    rw (small, fits, put_meta-bytes m out (omega arith))
      (ap (λ l. some (46, l))
        (copy_behind 14 mid (front ++ (replicate 32 0 ++ drop 32 (drop 1 (drop 13 out))))
          ∙ ap (λ l. front ++ (mid ++ drop (length mid) (replicate 32 0 ++ l)))
              (drop-drop 32 1 (drop 13 out) ∙ drop-drop 33 13 out)))

drop_mid :
    (m : ReceiveMeta) (mid out : List ℕ)
    → length mid ≤ 32
    → drop 46 (mid_record m mid out) ≡ drop 46 out
unfolding mid_record
drop_mid m mid out high =
    let k = 32 - length mid in
    let whole : length mid + k ≡ 32 = omega arith in
    let tail = replicate 32 0 ++ drop 46 out in
    ap (λ n. drop n (mid ++ drop (length mid) tail)) (sym whole)
    ∙ (sym (drop-drop k (length mid) (mid ++ drop (length mid) tail))
        ∙ (ap (drop k) (drop-append mid (drop (length mid) tail))
            ∙ (drop-drop k (length mid) tail ∙ ap (λ n. drop n tail) whole)))

parse_mid :
    (m : ReceiveMeta) (mid out : List ℕ)
    → IsMeta m
    → 1 ≤ length mid
    → length mid ≤ 32
    → parse_meta_mid (mid_record m mid out)
      ≡ some (m, mid ++ drop (length mid) (replicate 32 0), length mid)
unfolding parse_meta_mid mid_record
parse_mid m mid out h low high =
    let tail = drop (length mid) (replicate 32 0 ++ drop 46 out) in
    let n : 14 + length mid - 14 ≡ length mid = omega arith in
    let sized : (length mid == 0 || ltb 32 (length mid)) ≡ false = ground arith in
    let whole : ltb (length (meta_bytes m ++ length mid ∷ (mid ++ tail))) 46 ≡ false =
      ground
        (arith, length-append mid tail, length-drop (length mid) (replicate 32 0 ++ drop 46 out)) in
    let some_meta = parse_meta-bytes m (length mid ∷ (mid ++ tail)) h in
    let none_before : 0 + length mid ≡ length mid = omega arith in
    rw (whole, sized, some_meta, n, take-append, none_before) refl

-- Metadata of machine words with a MID of 1 to 32 bytes is written to every buffer of 46 bytes or more;
-- the metadata, the MID with the rest of its array zero, and its length are read back from the written
-- buffer, and what is behind the 46 bytes is kept.
pub parse-put_meta_mid :
    (m : ReceiveMeta) (mid out : List ℕ)
    → IsMeta m
    → 1 ≤ length mid
    → length mid ≤ 32
    → 46 ≤ length out
    → (written : List ℕ) × (put_meta_mid out m mid ≡ some (46, written))
      × (parse_meta_mid written ≡ some (m, mid ++ drop (length mid) (replicate 32 0), length mid))
      × (drop 46 written ≡ drop 46 out)
parse-put_meta_mid m mid out h low high room = (
  mid_record m mid out,
  put_mid m mid out low high room,
  parse_mid m mid out h low high,
  drop_mid m mid out high,
)
