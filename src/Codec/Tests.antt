-- ===== src/Codec/Tests.antt =====
-- The theorems about the ciphers at a cipher that adds one to every byte, and its inverse, with
-- blocks of two bytes.
use helper.Base.{
  ℕ, suc, ◌+◌, ◌-◌, ◌≡◌, refl, sym, ap, true, none, some, List, [], ◌∷◌, ◌++◌, map, arith, length,
}
use helper.IoHelper.Filter.{eof}
use helper.IoHelper.Pump.{all, Pumped}
use helper.IoHelper.Stream.{reads, source_of, plain_sink}
use helper.Codec.{Cipher, pad, process_cbc, process_cfb}
use helper.Codec.Streaming.{StreamLaws, all-streams, all-decrypts}
use helper.Codec.Padding.{BlockLaws, all-pads_each, all-leaves_padding}

abbrev adder : Cipher
adder = record { State = Unit {0}; block_size = 2; crypt = λ s p. (s, map suc p) }

abbrev back : ℕ → ℕ
back b = b - 1

abbrev subtracter : Cipher
subtracter = record { State = Unit {0}; block_size = 2; crypt = λ s p. (s, map back p) }

map-append : (f : ℕ → ℕ) (a b : List ℕ) → map f (a ++ b) ≡ map f a ++ map f b
map-append f [] b = refl
map-append f (x ∷ a) b = ap (λ xs. f x ∷ xs) (map-append f a b)

inverse : (p : List ℕ) → map back (map suc p) ≡ p
inverse [] = refl
inverse (x ∷ p) = let same : back (suc x) ≡ x = omega arith in rw (same, inverse p) refl

adder-StreamLaws : StreamLaws adder
adder-StreamLaws = record {
  crypt_nil = λ s. refl;
  crypt_append = λ s a b. rw (map-append suc a b) refl;
}

subtracter-StreamLaws : StreamLaws subtracter
subtracter-StreamLaws = record {
  crypt_nil = λ s. refl;
  crypt_append = λ s a b. rw (map-append back a b) refl;
}

adder-BlockLaws : BlockLaws adder
adder-BlockLaws = record {
  size_positive = omega arith;
  crypt_nil = λ s. refl;
  crypt_append = λ s a b h. rw (map-append suc a b) refl;
}

subtracter-BlockLaws : BlockLaws subtracter
subtracter-BlockLaws = record {
  size_positive = omega arith;
  crypt_nil = λ s. refl;
  crypt_append = λ s a b h. rw (map-append back a b) refl;
}

abbrev text : List (List ℕ)
text = (1 ∷ []) ∷ (2 ∷ 3 ∷ 4 ∷ []) ∷ []

abbrev code : List (List ℕ)
code = (2 ∷ 3 ∷ []) ∷ []

all-decrypts_example :
    (read_back : Pumped (process_cfb subtracter)) × (all
        (process_cfb subtracter)
        (length code + 1)
        (source_of
          (process_cfb subtracter)
          (tt ∷ [])
          (reads code ((4 ∷ 5 ∷ [], some eof) ∷ []))
          none)
        (plain_sink (process_cfb subtracter) [])
        true
      ≡ some read_back)
    × (read_back.sink.writer.written ≡ 1 ∷ 2 ∷ 3 ∷ 4 ∷ [])
    × (read_back.err ≡ none)
all-decrypts_example =
    all-decrypts adder adder-StreamLaws tt subtracter subtracter-StreamLaws tt text [] code
      (4 ∷ 5 ∷ []) 0 true (all-streams adder adder-StreamLaws tt text [] [] 0 true).result inverse
      (all-streams adder adder-StreamLaws tt text [] [] 0 true).returns
      (sym (all-streams adder adder-StreamLaws tt text [] [] 0 true).written_is)

-- The padding of the first read stands between 1 and 2, and that of the second at the end.
all-leaves_padding_example :
    let whole : List (List ℕ) = (2 ∷ 2 ∷ []) ∷ [] in
    (read_back : Pumped (process_cbc subtracter)) × (all
        (process_cbc subtracter)
        (length whole + 1)
        (source_of
          (process_cbc subtracter)
          (tt ∷ [])
          (reads whole ((3 ∷ 4 ∷ 5 ∷ 2 ∷ [], some eof) ∷ []))
          none)
        (plain_sink (process_cbc subtracter) [])
        true
      ≡ some read_back)
    × (read_back.sink.writer.written ≡ 1 ∷ 1 ∷ 2 ∷ 3 ∷ 4 ∷ 1 ∷ [])
    × (read_back.err ≡ none)
unfolding pad
all-leaves_padding_example =
    all-leaves_padding adder adder-BlockLaws tt subtracter subtracter-BlockLaws tt text []
      ((2 ∷ 2 ∷ []) ∷ []) (3 ∷ 4 ∷ 5 ∷ 2 ∷ []) 0 true
      (all-pads_each adder adder-BlockLaws tt text [] [] 0 true).result (λ p h. inverse p)
      (all-pads_each adder adder-BlockLaws tt text [] [] 0 true).returns
      (sym (all-pads_each adder adder-BlockLaws tt text [] [] 0 true).written_is) (refl, tt) refl
