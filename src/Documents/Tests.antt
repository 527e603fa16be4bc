-- ===== src/Documents/Tests.antt =====
-- Packing of a few pieces, and the theorem at such an input.
use Prim.Native.String as Str
use mark_sdk.Prelude.{String, ◌≡◌, refl, List, [], ◌∷◌, ◌==◌, arith}
use mark_sdk.Documents.Packing.{
  Piece, Lexer, join_rest, join_pieces, take_back, tail, pack_from, pack,
}
use mark_sdk.Documents.Packed.{IsPacked, pack_from-IsPacked}

program : Unit {0}
unfolding join_rest join_pieces take_back tail pack_from pack
program = tt

-- One token for each byte.
abbrev bytes : Lexer
bytes = record { token_count = Str.len; is_fence = λ t. t == "```" }

abbrev sentence : String → Piece
sentence text = record { separator = " "; text = text }

abbrev pieces : List Piece
pieces = sentence "One" ∷ sentence "two" ∷ sentence "three" ∷ []

-- The second body repeats the end of the first.
packed : pack bytes pieces 8 4 ≡ "One two" ∷ "two three" ∷ []
unfolding program
packed = refl

fence_is_not_repeated :
    pack bytes (sentence "```" ∷ sentence "three" ∷ []) 7 4 ≡ "```" ∷ "three" ∷ []
unfolding program
fence_is_not_repeated = refl

pack_from-IsPacked_example : IsPacked bytes 8 pieces (pack_from bytes 8 4 pieces [] 0)
pack_from-IsPacked_example =
    pack_from-IsPacked bytes pieces 8 4 (omega arith, (omega arith, (omega arith, tt)))
