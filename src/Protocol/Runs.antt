-- ===== src/Protocol/Runs.antt =====
-- Frames and identifiers of concrete messages.
use mesh_chat.Prelude.{◌≡◌, ◌≢◌, ◌<◌, ◌^◌, refl, [], ◌∷◌, ◌++◌, Bytes, arith, length, All}
use mesh_chat.Error.{ok}
use mesh_chat.Text.Hex.{lower_byte, lower_digit}
use mesh_chat.Text.{byte_len}
use mesh_chat.Codec.{from_be_bytes}
use mesh_chat.Protocol.{
  rejected, control, chunk, encode_control, encode_chunk, decode, hex, unhex16, returns, panics,
}
use mesh_chat.Protocol.Frames.{decode-encode_control, decode-encode_chunk, encode_chunk-decode}
use mesh_chat.Protocol.Ids.{unhex16-hex, unhex16-ne-panics, unhex16_panics}
use mesh_chat.Samples.{sample_json}

abbrev sixteen : Bytes
sixteen = 1 ∷ 2 ∷ 3 ∷ 4 ∷ 5 ∷ 6 ∷ 7 ∷ 8 ∷ 9 ∷ 10 ∷ 11 ∷ 12 ∷ 13 ∷ 14 ∷ 15 ∷ 255 ∷ []

sixteen-bytes : All (λ b. b < 256) sixteen
sixteen-bytes = (
  omega arith,
  (
    omega arith,
    (
      omega arith,
      (
        omega arith,
        (
          omega arith,
          (
            omega arith,
            (
              omega arith,
              (
                omega arith,
                (
                  omega arith,
                  (
                    omega arith,
                    (
                      omega arith,
                      (omega arith, (omega arith, (omega arith, (omega arith, (omega arith, tt))))),
                    ),
                  ),
                ),
              ),
            ),
          ),
        ),
      ),
    ),
  ),
)

encoded : encode_control sample_json (rejected (78 ∷ [])) ≡ ok (1 ∷ 1 ∷ 78 ∷ [])
unfolding encode_control
encoded = refl

decode-encode_control_example :
    decode sample_json (1 ∷ 1 ∷ 78 ∷ []) ≡ ok (control (rejected (78 ∷ [])))
decode-encode_control_example =
    decode-encode_control sample_json (rejected (78 ∷ [])) (1 ∷ 1 ∷ 78 ∷ []) encoded

decode-encode_chunk_example :
    decode sample_json (encode_chunk sixteen 7 (104 ∷ 105 ∷ []))
    ≡ ok (chunk sixteen 7 (104 ∷ 105 ∷ []))
decode-encode_chunk_example =
    decode-encode_chunk sample_json sixteen 7 (104 ∷ 105 ∷ []) refl (omega arith)

unhex16-hex_example : unhex16 (hex sixteen) ≡ returns (ok sixteen)
unhex16-hex_example = unhex16-hex sixteen sixteen-bytes refl

abbrev small_chunk : Bytes
small_chunk =
    2 ∷ 1 ∷ 2 ∷ 3 ∷ 4 ∷ 5 ∷ 6 ∷ 7 ∷ 8 ∷ 9 ∷ 10 ∷ 11 ∷ 12 ∷ 13 ∷ 14 ∷ 15 ∷ 255 ∷ 0 ∷ 0 ∷ 1 ∷ 2 ∷ 42
    ∷ []

small_chunk-bytes : All (λ b. b < 256) small_chunk
small_chunk-bytes = (
  omega arith,
  (
    omega arith,
    (
      omega arith,
      (
        omega arith,
        (
          omega arith,
          (
            omega arith,
            (
              omega arith,
              (
                omega arith,
                (
                  omega arith,
                  (
                    omega arith,
                    (
                      omega arith,
                      (
                        omega arith,
                        (
                          omega arith,
                          (
                            omega arith,
                            (
                              omega arith,
                              (
                                omega arith,
                                (
                                  omega arith,
                                  (
                                    omega arith,
                                    (omega arith, (omega arith, (omega arith, (omega arith, tt)))),
                                  ),
                                ),
                              ),
                            ),
                          ),
                        ),
                      ),
                    ),
                  ),
                ),
              ),
            ),
          ),
        ),
      ),
    ),
  ),
)

small_chunk_decoded : decode sample_json small_chunk ≡ ok (chunk sixteen 258 (42 ∷ []))
unfolding decode from_be_bytes
small_chunk_decoded = refl

encode_chunk-decode_example :
    (small_chunk ≡ encode_chunk sixteen 258 (42 ∷ [])) × (length sixteen ≡ 16) × (258 < 2 ^ 32)
encode_chunk-decode_example =
    encode_chunk-decode sample_json small_chunk sixteen (42 ∷ []) 258 small_chunk-bytes
      small_chunk_decoded

-- Fourteen bytes in hexadecimal, then `a`, `é` and `a`: 32 bytes.
abbrev front : Bytes
front = 1 ∷ 2 ∷ 3 ∷ 4 ∷ 5 ∷ 6 ∷ 7 ∷ 8 ∷ 9 ∷ 10 ∷ 11 ∷ 12 ∷ 13 ∷ 14 ∷ []

front-bytes : All (λ b. b < 256) front
front-bytes = (
  omega arith,
  (
    omega arith,
    (
      omega arith,
      (
        omega arith,
        (
          omega arith,
          (
            omega arith,
            (
              omega arith,
              (
                omega arith,
                (
                  omega arith,
                  (omega arith, (omega arith, (omega arith, (omega arith, (omega arith, tt))))),
                ),
              ),
            ),
          ),
        ),
      ),
    ),
  ),
)

misaligned_len : byte_len (hex front ++ 97 ∷ 233 ∷ 97 ∷ []) ≡ 32
unfolding byte_len hex lower_byte lower_digit
misaligned_len = refl

unhex16_panics_example : unhex16 (hex front ++ 97 ∷ 233 ∷ 97 ∷ []) ≡ panics
unhex16_panics_example =
    unhex16_panics front 97 233 (97 ∷ []) front-bytes (omega arith) (omega arith) misaligned_len

unhex16-ne-panics_example : unhex16 (97 ∷ 98 ∷ []) ≢ panics
unhex16-ne-panics_example = unhex16-ne-panics (97 ∷ 98 ∷ []) (omega arith, (omega arith, tt))
