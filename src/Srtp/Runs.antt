-- ===== src/Srtp/Runs.antt =====
-- Runs of the SRTP core on concrete packets.
use wave.Common.{
  ℕ, ◌==◌, ◌+◌, ◌/◌, ◌%◌, ◌^◌, ◌≡◌, ◌≢◌, ◌↔◌, refl, arith, true, false, none, some, List, [], ◌∷◌,
  ◌++◌, ◌>>=◌, length, take, drop, get_or, replicate, same, same_refl, if◌then◌else◌,
}
use wave.Common.Bytes.{be32}
use wave.Srtp.{
  Replay, create, accept, highest, estimate_roc, packet_index, validate_srtp_packet,
  validate_srtcp_packet,
}
use wave.Srtp.Window.{verdicts, verdicts-admit_all}
use wave.Srtp.Rollover.{Packet, receive, after, prior, index_of, wrap-index_of, after-rollover}
use wave.Srtp.Gcm.{
  Aead, mix, input, gcm_nonce, protect_aes128_gcm, unprotect_aes128_gcm, u32_at, index_word,
  srtcp_gcm_nonce, protect_srtcp_aes128_gcm, unprotect_srtcp_aes128_gcm,
}
use wave.Srtp.Gcm.Nonce.{sent_index, nonce_repeats}
use wave.Srtp.Gcm.RoundTrip.{IsAead, unprotect-protect}
use wave.Srtp.Gcm.Srtcp.{Head, head_bytes, unprotect_srtcp-protect_srtcp}
use wave.Srtp.Cm.{
  Primitives, HasLengths, counter, aes_cm_xor, protect_aes_cm_sha1_80, unprotect_aes_cm_sha1_80,
}
use wave.Srtp.Cm.RoundTrip.{unprotect_cm-protect_cm, unprotect-zero_tag}
use wave.Srtp.Keys.{dtls_srtp_context, derive, derive_from, kdf_counter}
use wave.Sframe.Replay.Stream.{admit_all}

-- An AEAD whose tag is the length of the additional data, sixteen times.
unfoldable toy : Aead
toy = record {
  encrypt = λ k n a p. (p, replicate 16 (length a));
  decrypt = λ k n a c t. if same t (replicate 16 (length a)) then some c else none;
}

toy-IsAead : IsAead toy
unfolding toy
toy-IsAead = record {
  cipher_length = λ k n a p. refl;
  tag_length = λ k n a p. refl;
  opens = λ k n a p. rw (same_refl (replicate 16 (length a))) refl;
}

unfoldable toys : Primitives
toys = record {
  block = λ k b. replicate 16 (get_or b 15 0 + get_or k 0 0);
  sha1 = λ bytes. replicate 20 (length bytes % 256);
}

toys-HasLengths : HasLengths toys
unfolding toys
toys-HasLengths = record { block_length = λ k b. refl; sha1_length = λ bytes. refl }

abbrev stream : List ℕ
stream = 5 ∷ 7 ∷ 6 ∷ 7 ∷ 80 ∷ 5 ∷ 17 ∷ []

run_window : verdicts create stream ≡ true ∷ true ∷ true ∷ false ∷ true ∷ false ∷ true ∷ []
unfolding verdicts create accept
run_window = refl

verdicts-admit_all_example : verdicts create stream ≡ admit_all [] stream
verdicts-admit_all_example = verdicts-admit_all stream

wrap-index_of_example : index_of 65535 (65536 % 2 ^ 16) ≢ 65536
wrap-index_of_example =
    wrap-index_of 65535 65536 (omega arith) (omega arith) (omega arith) (omega arith)
      (λ e. absurd (omega (arith, e)))

abbrev at_end : Replay
at_end = record { highest = 65535; bitmap = 1; initialized = true }

-- The four packets behind the rollover, which verify at their own index only.
abbrev behind : List Packet
behind =
    record { sequence = 0; authentic = λ i. i == 65536 }
    ∷ record { sequence = 1; authentic = λ i. i == 65537 }
    ∷ record { sequence = 40000; authentic = λ i. i == 105536 }
    ∷ record { sequence = 65535; authentic = λ i. i == 131071 }
    ∷ []

run_behind : (after at_end behind).highest ≡ 65535
unfolding after receive index_of prior highest accept estimate_roc packet_index
run_behind = refl

after-rollover_example : (after at_end behind).highest / 2 ^ 16 ≡ 65535 / 2 ^ 16
after-rollover_example =
    after-rollover at_end behind (omega arith, (omega arith, (omega arith, (omega arith, tt))))
      (refl, omega arith, omega arith)

abbrev salt12 : List ℕ
salt12 = 1 ∷ 2 ∷ 3 ∷ 4 ∷ 5 ∷ 6 ∷ 7 ∷ 8 ∷ 9 ∷ 10 ∷ 11 ∷ 12 ∷ []

run_nonce :
    gcm_nonce salt12 0x01020304 0x20005 ≡ 1 ∷ 2 ∷ 2 ∷ 6 ∷ 6 ∷ 2 ∷ 7 ∷ 8 ∷ 9 ∷ 8 ∷ 11 ∷ 9 ∷ []
unfolding gcm_nonce mix input
run_nonce = refl

nonce_repeats_example :
    (gcm_nonce salt12 7 (sent_index 3 65530) ≡ gcm_nonce salt12 7 (sent_index 65539 65530))
    ↔ (3 % 2 ^ 16 ≡ 65539 % 2 ^ 16)
nonce_repeats_example = nonce_repeats salt12 7 65530 3 65539 refl (omega arith) (omega arith)

abbrev rtp_head : List ℕ
rtp_head = 0x80 ∷ 96 ∷ 0 ∷ 9 ∷ []

abbrev text : List ℕ
text = 104 ∷ 105 ∷ []

unprotect-protect_example :
    (protect_aes128_gcm toy (1 ∷ []) salt12 7 9 (rtp_head ++ (text ++ replicate 20 0)) 4 6
      >>= λ (n, out). unprotect_aes128_gcm toy (1 ∷ []) salt12 7 9 (take n out) 4)
    ≡ some (6, rtp_head ++ (text ++ (toy.encrypt (1 ∷ []) (gcm_nonce salt12 7 9) rtp_head text).1))
unprotect-protect_example =
    unprotect-protect toy toy-IsAead (1 ∷ []) salt12 7 9 rtp_head text (replicate 20 0)
      (omega arith) (omega arith) (omega arith)

abbrev rtcp_head : Head
rtcp_head = record { first = 0x81; kind = 201; len0 = 0; len1 = 3; s0 = 1; s1 = 2; s2 = 3; s3 = 4 }

-- The index is marked as encrypted on the wire.
run_srtcp :
    (protect_srtcp_aes128_gcm toy [] salt12 (head_bytes rtcp_head ++ (text ++ replicate 20 0)) 10 5
      >>= λ (n, out). some (take 4 (drop 10 out)))
    ≡ some (0x80 ∷ 0 ∷ 0 ∷ 5 ∷ [])
unfolding toy protect_srtcp_aes128_gcm index_word
run_srtcp = refl

unprotect_srtcp-protect_srtcp_example :
    (protect_srtcp_aes128_gcm toy [] salt12 (head_bytes rtcp_head ++ (text ++ replicate 20 0)) 10 5
      >>= λ (n, out). unprotect_srtcp_aes128_gcm toy [] salt12 (take n out))
    ≡ some (
      10,
      5,
      head_bytes rtcp_head
          ++ (text
              ++ (be32 (index_word 5)
                  ++ (toy.encrypt []
                      (srtcp_gcm_nonce salt12 0x01020304 5)
                      (head_bytes rtcp_head ++ be32 (index_word 5))
                      text).1)),
    )
unprotect_srtcp-protect_srtcp_example =
    unprotect_srtcp-protect_srtcp toy toy-IsAead [] salt12 5 rtcp_head text (replicate 20 0)
      (omega arith) (omega arith)

-- A packet without the mark, and one that is too short.
run_unmarked : unprotect_srtcp_aes128_gcm toy [] salt12 (replicate 28 0) ≡ none
unfolding unprotect_srtcp_aes128_gcm u32_at
run_unmarked = refl

run_short : unprotect_aes128_gcm toy [] salt12 7 9 (replicate 16 0) 0 ≡ none
unfolding unprotect_aes128_gcm
run_short = refl

abbrev salt14 : List ℕ
salt14 = salt12 ++ 13 ∷ 14 ∷ []

abbrev keys : List ℕ
keys = replicate 16 3

unprotect_cm-protect_cm_example :
    (protect_aes_cm_sha1_80 toys keys keys salt14 7 9 (rtp_head ++ (text ++ replicate 10 0)) 4 6
      >>= λ (n, out).
          unprotect_aes_cm_sha1_80 toys keys keys salt14 7 9 (take n out) 4 >>= λ (n', plain).
          some (take n' plain))
    ≡ some (rtp_head ++ text)
unprotect_cm-protect_cm_example =
    unprotect_cm-protect_cm toys toys-HasLengths keys keys salt14 7 9 rtp_head text (replicate 10 0)
      (omega arith) (omega arith) (omega arith)

-- 1530 bytes behind the header.
abbrev long_text : List ℕ
long_text = replicate 1530 0

unprotect-zero_tag_example :
    unprotect_aes_cm_sha1_80 toys keys keys salt14 7 9 (rtp_head ++ (long_text ++ replicate 10 0)) 4
    ≡ some (1534, rtp_head ++ (aes_cm_xor toys keys salt14 7 9 long_text ++ replicate 10 0))
unprotect-zero_tag_example =
    let size : length rtp_head + length long_text ≡ 1534 = refl in
    unprotect-zero_tag toys toys-HasLengths keys keys salt14 7 9 rtp_head long_text (omega arith)
      (omega arith)

-- The four bytes behind the salt's first twelve hold the number of the block.
run_counter :
    counter salt14 1 1 2 ≡ 1 ∷ 2 ∷ 3 ∷ 4 ∷ 5 ∷ 6 ∷ 7 ∷ 9 ∷ 9 ∷ 10 ∷ 11 ∷ 13 ∷ 0 ∷ 0 ∷ 0 ∷ 2 ∷ []
unfolding counter mix
run_counter = refl

run_derived : derive toys keys salt14 1 20 ≡ replicate 16 3 ++ (4 ∷ 4 ∷ 4 ∷ 4 ∷ [])
unfolding derive derive_from kdf_counter mix toys
run_derived = refl

run_shapes :
    (validate_srtp_packet (1 ∷ 2 ∷ 3 ∷ []) 2 ≡ some (1 ∷ [], 2 ∷ 3 ∷ []))
    × (validate_srtp_packet (1 ∷ 2 ∷ []) 2 ≡ none)
    × (validate_srtcp_packet (9 ∷ 0 ∷ 0 ∷ 1 ∷ 2 ∷ 7 ∷ []) 1 ≡ some (9 ∷ [], 258, 7 ∷ []))
unfolding validate_srtp_packet validate_srtcp_packet
run_shapes = (refl, refl, refl)

run_exported : dtls_srtp_context (replicate 55 0) ≡ none
unfolding dtls_srtp_context
run_exported = refl
