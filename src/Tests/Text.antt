-- ===== src/Tests/Text.antt =====
-- Runs of src/utf8.c and of the string comparison.
use libcyaml.Base.{ℕ, ◌≡◌, ◌≢◌, ◌↔◌, refl, arith, none, some, List, [], ◌∷◌, ◌++◌, take, map}
use libcyaml.Base.Int.{pos}
use libcyaml.Utf8.{char_len, get_codepoint, to_lower, casecmp, returns, faulted, stuck}
use libcyaml.Utf8.{continuation, shortest_form, finish}
use libcyaml.Utf8.Encode.{encode, text}
use libcyaml.Utf8.Decode.{DecodesTo, get_codepoint-encode}
use libcyaml.Utf8.Sound.{encode-get_codepoint}
use libcyaml.Utf8.Fold.{to_lower_idem}
use libcyaml.Utf8.Compare.{compare_folded, casecmp-text, casecmp-zero_iff}
use libcyaml.Utf8.Safety.{terminated, get_codepoint-ne-none, casecmp-ne-stuck, casecmp-faulted}
use libcyaml.Strings.{strcmp, strerror}
use libcyaml.Strings.Order.{RegardsCase, strcmp-RegardsCase}
use libcyaml.Base.{◌⊎◌}
use libcyaml.Tests.Integers.{int_schema, config}

-- U+20AC is three bytes.
abbrev euro : List ℕ
euro = 0xe2 ∷ 0x82 ∷ 0xac ∷ []

euro_decodes : get_codepoint (euro ++ (0 ∷ [])) 3 ≡ some (0x20ac, 3)
unfolding get_codepoint continuation finish shortest_form
euro_decodes = refl

-- An overlong form of "/" is refused.
overlong_refused : get_codepoint (0xc0 ∷ 0xaf ∷ 0 ∷ []) 2 ≡ some (0xfffd, 2)
unfolding get_codepoint continuation finish shortest_form
overlong_refused = refl

invalid_error_code : strerror 32 ≡ some "Invalid error code"
unfolding strerror
invalid_error_code = refl

last_error_code : strerror 31 ≡ some "libyaml parser error"
unfolding strerror
last_error_code = refl

get_codepoint-encode_example : DecodesTo 0x20ac (encode 0x20ac)
get_codepoint-encode_example = get_codepoint-encode 0x20ac (omega arith)

encode-get_codepoint_example :
    (3 ≡ char_len 0xe2) × (take 3 (0xe2 ∷ 0x82 ∷ 0xac ∷ 0 ∷ []) ≡ encode 0x20ac)
unfolding get_codepoint continuation finish shortest_form char_len
encode-get_codepoint_example =
    encode-get_codepoint 0xe2 0x20ac 3 (0x82 ∷ 0xac ∷ 0 ∷ [])
      (omega arith, (omega arith, (omega arith, (omega arith, tt)))) refl (λ e. omega (arith, e))

to_lower_idem_example : to_lower (to_lower 0x100) ≡ to_lower 0x100
to_lower_idem_example = to_lower_idem 0x100

casecmp-text_example :
    casecmp (text (0x20ac ∷ 65 ∷ [])) (text (0x20ac ∷ 97 ∷ []))
    ≡ returns (compare_folded (0x20ac ∷ 65 ∷ []) (0x20ac ∷ 97 ∷ []))
casecmp-text_example =
    casecmp-text (0x20ac ∷ 65 ∷ []) (0x20ac ∷ 97 ∷ [])
      ((omega arith, omega arith), ((omega arith, omega arith), tt))
      ((omega arith, omega arith), ((omega arith, omega arith), tt))

casecmp-zero_iff_example :
    (casecmp (text (0xe9 ∷ 65 ∷ [])) (text (0xc9 ∷ 97 ∷ [])) ≡ returns (pos 0))
    ↔ (map to_lower (0xe9 ∷ 65 ∷ []) ≡ map to_lower (0xc9 ∷ 97 ∷ []))
casecmp-zero_iff_example =
    casecmp-zero_iff (0xe9 ∷ 65 ∷ []) (0xc9 ∷ 97 ∷ [])
      ((omega arith, omega arith), ((omega arith, omega arith), tt))
      ((omega arith, omega arith), ((omega arith, omega arith), tt))

get_codepoint-ne-none_example : get_codepoint (terminated (0xe2 ∷ 0x82 ∷ []) []) 3 ≢ none
get_codepoint-ne-none_example = get_codepoint-ne-none 0xe2 (0x82 ∷ []) [] 3

casecmp-ne-stuck_example : casecmp (0xe2 ∷ 0 ∷ []) (0x61 ∷ 0 ∷ []) ≢ stuck
casecmp-ne-stuck_example = casecmp-ne-stuck (0xe2 ∷ 0 ∷ []) (0x61 ∷ 0 ∷ [])

casecmp-faulted_example : casecmp (0xe2 ∷ 0 ∷ []) (0xe2 ∷ 0 ∷ []) ≡ faulted
casecmp-faulted_example =
    casecmp-faulted 0xe2 0xe2 (omega arith) (omega arith) (omega arith) (omega arith)

abbrev letter_a : List ℕ
letter_a = 0x61 ∷ []

abbrev letters_ab : List ℕ
letters_ab = 0x61 ∷ 0x62 ∷ []

strcmp-RegardsCase_example :
    (RegardsCase 0 0
      × ((strcmp config int_schema letter_a letters_ab ≡ returns (pos 0))
          ↔ (letter_a ≡ letters_ab)))
    ⊎ (¬ RegardsCase 0 0
        × (strcmp config int_schema letter_a letters_ab
            ≡ casecmp (0x61 ∷ 0 ∷ []) (0x61 ∷ 0x62 ∷ 0 ∷ [])))
strcmp-RegardsCase_example = strcmp-RegardsCase config int_schema letter_a letters_ab
