-- ===== src/Documents/Packing.antt =====
-- The packing of pieces into bodies: `_pack`, `_tail` and `_join` of src/mark/documents/chunking.py.
-- The number of tokens of a text and the test of a code fence are regular expressions of Python's
-- re, and are arguments.
use Prim.Native.String.{◌++◌ as join}
use mark_sdk.Prelude.{
  ℕ, ◌+◌, ◌-◌, min, String, Bool, true, false, List, [], ◌∷◌, ◌++◌, reverse, map, not, ◌&&◌, ◌||◌,
  ltb, leb, if◌then◌else◌,
}

-- The separator goes before the text where the piece follows another one.
pub record Piece : Type 0 where
  pub separator : String
  pub text : String

pub record Lexer : Type 0 where
  pub token_count : String → ℕ
  pub is_fence : String → Bool

unfoldable pub join_rest : List Piece → String
join_rest [] = ""
join_rest (p ∷ ps) = join (join p.separator p.text) (join_rest ps)

unfoldable pub join_pieces : List Piece → String
join_pieces [] = ""
join_pieces (p ∷ ps) = join p.text (join_rest ps)

abbrev pub has_no_pieces : List Piece → Bool
has_no_pieces [] = true
has_no_pieces (p ∷ ps) = false

module _ (x : Lexer) where
  abbrev pub piece_cost : Piece → ℕ
  piece_cost p = x.token_count p.text

  -- sum(estimate_tokens(p[1]) for p in current)
  abbrev pub piece_total : List Piece → ℕ
  piece_total [] = 0
  piece_total (p ∷ ps) = piece_cost p + piece_total ps

  -- The loop over the pieces from the last one on, up to the first that is a fence or too much.
  unfoldable pub take_back : ℕ → List Piece → List Piece → ℕ → List Piece
  take_back most [] kept size = kept
  take_back most (p ∷ ps) kept size =
      let rest = take_back most ps (p ∷ kept) (size + piece_cost p) in
      if x.is_fence p.text || ltb most (size + piece_cost p) then kept else rest

  -- `room` is 0 where the source has a number that is not positive.
  unfoldable pub tail : List Piece → ℕ → ℕ → List Piece
  tail pieces overlap room =
      if leb overlap 0 || leb room 0 then [] else take_back (min overlap room) (reverse pieces) [] 0

  -- The loop of `_pack`, with the pieces of each body.
  unfoldable pub pack_from : ℕ → ℕ → List Piece → List Piece → ℕ → List (List Piece)
  pack_from budget overlap [] current size = if has_no_pieces current then [] else current ∷ []
  pack_from budget overlap (p ∷ ps) current size =
      let carried : List Piece = tail current overlap (budget - piece_cost p) in
      let flushed =
        pack_from budget overlap ps (carried ++ p ∷ []) (piece_total carried + piece_cost p) in
      let grown = pack_from budget overlap ps (current ++ p ∷ []) (size + piece_cost p) in
      if not (has_no_pieces current) && ltb budget (size + piece_cost p)
      then current ∷ flushed
      else grown

  unfoldable pub pack : List Piece → ℕ → ℕ → List String
  pack pieces budget overlap = map join_pieces (pack_from budget overlap pieces [] 0)
