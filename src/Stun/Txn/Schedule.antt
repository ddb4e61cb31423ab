-- ===== src/Stun/Txn/Schedule.antt =====
-- The retransmission schedule and the identifiers of the client transaction.
use wave.Common.{
  ℕ, zero, suc, ◌+◌, ◌-◌, ◌*◌, ◌%◌, ◌^◌, ◌≤◌, ◌<◌, ◌≡◌, ◌↔◌, refl, ap, sym, ◌∙◌, arith, true, false,
  List, [], ◌∷◌, min, leb, ltb, if◌then◌else◌, bit_or, bit_xor, length, take, get_or,
}
use native.Mathlib.Nat.{pow-suc, pow-le-pow_right}
use wave.Common.Bits.{pow-pos, bit_or-eq_zero, bit_xor-eq_zero, bit_xor_self}
use wave.Common.Bytes.{be64, from64, from64-bytes}
use wave.Stun.Txn.{
  rc, u64_max, send, wait, timed_out, Txn, begin, interval_ms, poll, sent_at, differences, matches,
  txn_id,
}

-- A client that is never answered and transmits when `poll` says so, after `n` transmissions.
unfoldable pub unanswered : ℕ → Txn → Txn
unfolding sent_at
unanswered zero t = t
unanswered (suc n) t = let u = unanswered n t in sent_at u u.due_ms

-- The deadline behind `n` transmissions that were started at `now`.
pub deadline : ℕ → ℕ → ℕ
deadline now n = now + (2 ^ n - 1) * 500

few_doublings : (n : ℕ) → n ≤ 5 → (1 ≤ 2 ^ n) × (2 ^ n ≤ 32)
few_doublings n h = (pow-pos n, pow-le-pow_right (omega arith) h)

doubled : (n : ℕ) → n < 6 → interval_ms (n + 1) ≡ 500 * 2 ^ n
unfolding interval_ms
doubled n k =
    let e : min (n + 1 - 1) 16 ≡ n = omega arith in
    let (low, high) = few_doublings n (omega arith) in rw e (ground arith)

next_deadline :
    (now n : ℕ)
    → now + 39500 < 2 ^ 64
    → n < 6
    → min (deadline now n + interval_ms (n + 1)) u64_max ≡ deadline now (suc n)
unfolding deadline
next_deadline now n h k =
    let (low, high) = few_doublings n (omega arith) in rw (doubled n k) (omega (arith, pow-suc 2 n))

one_more :
    (id : List ℕ) (now n : ℕ)
    → now + 39500 < 2 ^ 64
    → n < 6
    → sent_at (record { id = id; sent = n; due_ms = deadline now n; done = 0 }) (deadline now n)
      ≡ record { id = id; sent = suc n; due_ms = deadline now (suc n); done = 0 }
unfolding sent_at
one_more id now n h k =
    let early : leb rc n ≡ false = ground arith in
    let next : n + 1 ≡ suc n = omega arith in rw (early, next_deadline now n h k, next) refl

unanswered_lem :
    (id : List ℕ) (now n : ℕ)
    → now + 39500 < 2 ^ 64
    → n ≤ 6
    → unanswered n (begin id now) ≡ record { id = id; sent = n; due_ms = deadline now n; done = 0 }
unfolding unanswered begin deadline
unanswered_lem id now zero h k = ground arith
unanswered_lem id now (suc n) h k =
    rw (unanswered_lem id now n h (omega arith)) (one_more id now n h (omega arith))

-- A transaction that nobody answers, whose whole schedule fits in a `u64`, transmits at 0, 500,
-- 1500, 3500, 7500, 15500 and 31500 ms after its start: after `n` transmissions, for `n` below 7,
-- `poll` waits before the next of these times, and from there on it sends attempt `n + 1`.
pub schedule :
    (id : List ℕ) (start n now : ℕ)
    → start + 39500 < 2 ^ 64
    → n < 7
    → poll (unanswered n (begin id start)) now
      ≡ (if ltb now (start + (2 ^ n - 1) * 500) then wait else send (n + 1))
unfolding poll deadline
schedule id start n now h k = rw (unanswered_lem id start n h (omega arith)) (ground arith)

-- A transaction that nobody answers, whose whole schedule fits in a `u64`, waits after its seventh
-- transmission until 39500 ms after its start, and has then timed out.
pub times_out :
    (id : List ℕ) (start now : ℕ)
    → start + 39500 < 2 ^ 64
    → poll (unanswered 7 (begin id start)) now
      ≡ (if ltb now (start + 39500) then wait else timed_out)
unfolding unanswered poll sent_at interval_ms deadline
times_out id start now h = rw (unanswered_lem id start 6 h (omega arith)) (ground arith)

differences-eq :
    (xs ys : List ℕ) (diff : ℕ)
    → length ys ≡ length xs
    → differences diff xs ys ≡ 0
    → (diff ≡ 0) × (ys ≡ xs)
unfolding differences
differences-eq [] [] diff e h = (h, refl)
differences-eq [] (y ∷ ys) diff e h = absurd (omega arith)
differences-eq (x ∷ xs) [] diff e h = absurd (omega arith)
differences-eq (x ∷ xs) (y ∷ ys) diff e h =
    let (z, q) = differences-eq xs ys (bit_or diff (bit_xor x y)) (omega arith) h in
    let (d, same) = bit_or-eq_zero diff (bit_xor x y) z in
    (d, rw (bit_xor-eq_zero x y same, q) refl)

differences_self : (xs : List ℕ) → differences 0 xs xs ≡ 0
unfolding differences
differences_self [] = refl
differences_self (x ∷ xs) = rw (bit_xor_self x) (differences_self xs)

-- `matches` tells exactly whether the identifiers are equal.
pub matches_iff : (t : Txn) (id : List ℕ) → (matches t id ≡ true) ↔ (id ≡ t.id)
unfolding matches
matches_iff t id = (
  λ e.
      let same : length id ≡ length t.id = ground arith in
      (differences-eq t.id id 0 same (ground arith)).1,
  λ e. rw e (ground (arith, differences_self t.id)),
)

mixed-injective :
    (c c' seed : ℕ)
    → c < 2 ^ 64
    → c' < 2 ^ 64
    → (c * 0x9e3779b97f4a7c15 + seed) % 2 ^ 64 ≡ (c' * 0x9e3779b97f4a7c15 + seed) % 2 ^ 64
    → c ≡ c'
mixed-injective c c' seed h h' e = omega arith

be64-injective : (x y : ℕ) → x < 2 ^ 64 → y < 2 ^ 64 → be64 x ≡ be64 y → x ≡ y
be64-injective x y h h' e = sym (from64-bytes x h) ∙ (ap value e ∙ from64-bytes y h')
  where
    value : List ℕ → ℕ
    value l =
        let at = λ (i : ℕ). get_or l i 0 in
        from64 (at 7) (at 6) (at 5) (at 4) (at 3) (at 2) (at 1) (at 0)

-- Under one seed, the identifiers of two `u64` counters are equal only if the counters are.
txn_id_unique : (c c' seed : ℕ) → c < 2 ^ 64 → c' < 2 ^ 64 → txn_id c seed ≡ txn_id c' seed → c ≡ c'
unfolding txn_id
txn_id_unique c c' seed h h' e =
    mixed-injective c c' seed h h' (be64-injective _ _ (omega arith) (omega arith) (ap (take 8) e))
