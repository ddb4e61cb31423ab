-- ===== src/Srtp/Keys.antt =====
-- Session keys from master keys, and the layout of exported keying material, of
-- modules/common/srtp_core.rs.
use wave.Common.{
  ℕ, zero, suc, ◌+◌, ◌-◌, ◌%◌, ◌^◌, ◌≤◌, ◌≡◌, arith, Option, none, some, List, [], ◌∷◌, ◌++◌, min,
  ltb, ◌==◌, if◌then◌else◌, length, take, slice, length-append, length-take,
}
use wave.Common.Bytes.{be16}
use wave.Srtp.Gcm.{mix}
use wave.Srtp.Cm.{Primitives, HasLengths}

module _ (prims : Primitives) (master_key salt : List ℕ) (label : ℕ) where
  -- The salt with the label, and the number of the block.
  unfoldable pub kdf_counter : ℕ → List ℕ
  kdf_counter n = mix salt (0 ∷ 0 ∷ 0 ∷ 0 ∷ 0 ∷ 0 ∷ 0 ∷ label ∷ []) ++ be16 n

  -- The loop, on the number of bytes that are left to write.
  unfoldable pub derive_from : ℕ → ℕ → ℕ → List ℕ
  derive_from zero n left = []
  derive_from (suc fuel) n left =
      let taken = min 16 left in
      let rest = derive_from fuel ((n + 1) % 2 ^ 16) (left - taken) in
      if left == 0 then [] else take taken (prims.block master_key (kdf_counter n)) ++ rest

  -- One round writes at least one byte.
  unfoldable pub derive : ℕ → List ℕ
  derive out_len = derive_from out_len 0 out_len

  module _ (lengths : HasLengths prims) where
    length-derive_from : (fuel n left : ℕ) → left ≤ fuel → length (derive_from fuel n left) ≡ left
    unfolding derive_from
    length-derive_from zero n left h = omega arith
    length-derive_from (suc fuel) n left h =
        let block = prims.block master_key (kdf_counter n) in
        let rest = derive_from fuel ((n + 1) % 2 ^ 16) (left - min 16 left) in
        ground (
          arith,
          length-append (take (min 16 left) block) rest,
          length-take (min 16 left) block,
          lengths.block_length master_key (kdf_counter n),
          length-derive_from fuel ((n + 1) % 2 ^ 16) (left - min 16 left),
        )

    -- The loop fills the output.
    pub length-derive : (out_len : ℕ) → length (derive out_len) ≡ out_len
    unfolding derive
    length-derive out_len = length-derive_from out_len 0 out_len (omega arith)

-- Encryption key, authentication key and session salt.
unfoldable pub derive_aes_cm_session_keys : Primitives → List ℕ → List ℕ → List ℕ × List ℕ × List ℕ
derive_aes_cm_session_keys prims master_key master_salt = (
  derive prims master_key master_salt 0x00 16,
  derive prims master_key master_salt 0x01 20,
  derive prims master_key master_salt 0x02 14,
)

unfoldable pub derive_aead_key_salt : Primitives → List ℕ → List ℕ → ℕ → ℕ → List ℕ × List ℕ
derive_aead_key_salt prims master_key master_salt key_label salt_label =
    let kdf_salt = master_salt ++ 0 ∷ 0 ∷ [] in
    (derive prims master_key kdf_salt key_label 16, derive prims master_key kdf_salt salt_label 12)

-- `DtlsSrtpContext`
pub record Context : Type 0 where
  pub client_key : List ℕ
  pub server_key : List ℕ
  pub client_salt : List ℕ
  pub server_salt : List ℕ

unfoldable pub dtls_srtp_context : List ℕ → Option Context
dtls_srtp_context exported =
    if ltb (length exported) 56
    then none
    else some (record {
      client_key = take 16 exported;
      server_key = slice exported 16 32;
      client_salt = slice exported 32 44;
      server_salt = slice exported 44 56;
    })
