-- ===== src/Transfer/Proof.antt =====
-- app/factory_reset_proof.py: the message of a completed physical reset and its HMAC check.
-- HMAC-SHA256 is a parameter: a function of key and message to bytes.
use smart_monitor_back_end.Base.{
  ℕ, ◌/◌, ◌%◌, String, Bool, true, false, not, ◌&&◌, Option, none, some, List, [], ◌∷◌, ◌++◌, leb,
  eqb, if◌then◌else◌, length,
}
use smart_monitor_back_end.Base.Http.{Result, ok, err, value_error, raise_if, ◌>>=◌, ◌>>◌}
use smart_monitor_back_end.Base.Text.{codes}
use smart_monitor_back_end.Base.Hex.{from_hex, is_uid, is_hex_32_bytes}

-- b"SmartMonitor/SM-015-SEC/factory-reset/v1\x00"
unfoldable pub domain : List ℕ
domain = codes "SmartMonitor/SM-015-SEC/factory-reset/v1" ++ 0 ∷ []

abbrev pub max_generation : ℕ
max_generation = 4294967295

-- pack(">I", n)
unfoldable pub pack_be32 : ℕ → List ℕ
pack_be32 n = n / 16777216 % 256 ∷ n / 65536 % 256 ∷ n / 256 % 256 ∷ n % 256 ∷ []

abbrev pub bytes_or_error : Option (List ℕ) → Result (List ℕ)
bytes_or_error none = err (value_error "non-hexadecimal number found in fromhex() arg")
bytes_or_error (some bs) = ok bs

unfoldable pub reset_proof_message : String → ℕ → String → Result (List ℕ)
unfolding domain pack_be32 is_uid is_hex_32_bytes from_hex
reset_proof_message device_uid completed_generation challenge_hex = do
  raise_if (not (is_uid device_uid)) (value_error "invalid device UID")
  raise_if (not (leb 1 completed_generation && leb completed_generation max_generation))
      (value_error "invalid completed reset generation")
  raise_if (not (is_hex_32_bytes challenge_hex)) (value_error "invalid reset challenge")
  challenge ← bytes_or_error (from_hex (codes challenge_hex))
  ok (domain ++ (codes device_uid ++ (pack_be32 completed_generation ++ challenge)))

-- hmac.compare_digest
unfoldable pub compare_digest : List ℕ → List ℕ → Bool
compare_digest [] [] = true
compare_digest (a ∷ as') (b ∷ bs) = eqb a b && compare_digest as' bs
compare_digest _ _ = false

abbrev compare_tag : List ℕ → Option (List ℕ) → Result Bool
compare_tag expected none = err (value_error "non-hexadecimal number found in fromhex() arg")
compare_tag expected (some tag) = ok (compare_digest expected tag)

module _ (hmac_sha256 : List ℕ → List ℕ → List ℕ) where
  unfoldable pub verify_reset_proof : List ℕ → String → ℕ → String → String → Result Bool
  unfolding reset_proof_message compare_digest
  verify_reset_proof factory_key device_uid completed_generation challenge_hex tag_hex = do
    raise_if (not (eqb (length factory_key) 32)) (value_error "invalid factory key")
    message ← reset_proof_message device_uid completed_generation challenge_hex
    if is_hex_32_bytes tag_hex
        then compare_tag (hmac_sha256 factory_key message) (from_hex (codes tag_hex))
        else ok false
