-- ===== src/Automata/Safety/Sized.antt =====
-- Queries in which a size follows each `str`, and the states between two of their tokens.
use proyecto_estructura.Prelude.{
  ◌≡◌, Bool, true, false, ◌&&◌, not, ◌||◌, ◌==◌, if◌then◌else◌, Option, none, some, List, [], ◌∷◌,
  is_some,
}
use proyecto_estructura.Parser.Compare.{same_variant_and_value}
use proyecto_estructura.Parser.Tokens.{KeywordE, TypeE, Numbers, Token, type, numbers}
use proyecto_estructura.Automata.Actions.{Action, Context}
use proyecto_estructura.Automata.State.{State, is_keyword, is_name_and_sub}
use proyecto_estructura.Automata.Consistent.{allows, family}

abbrev pub is_str : Token → Bool
is_str t = same_variant_and_value t (type TypeE.str)

abbrev pub is_uint : Token → Bool
is_uint (numbers (Numbers.uint n)) = true
is_uint _ = false

abbrev pub sized_next : Token → Token → Bool
sized_next t u = if is_str t then is_uint u else true

-- Every `str` type is followed by its size.
unfoldable pub is_sized : List Token → Bool
is_sized [] = true
is_sized (t ∷ []) = not (is_str t)
is_sized (t ∷ u ∷ ts) = sized_next t u && is_sized (u ∷ ts)

-- What the current token must be while the query has no action yet, and what is behind it.
abbrev pub phase : Context → Option Action → Option Token → Token → Bool
phase Context.insert_e none q t = is_keyword KeywordE.into t || is_name_and_sub t
phase Context.create_table_e none q t = is_keyword KeywordE.table t || is_name_and_sub t
phase Context.create_table_e (some a) q t = is_some q
phase _ _ q t = true

abbrev pub sized_behind : Option Token → Token → Bool
sized_behind none p = true
sized_behind (some q) p = sized_next q p

-- The state of a query that does not select, before a token that is not its first.
pub record Ready (s : State) (q : Option Token) (p t : Token) : Type 0 where
  pub allowed : allows s.ctx s.variant ≡ true
  pub no_select : (family s.ctx == 9) ≡ false
  pub in_phase : phase s.ctx s.variant q t ≡ true
  pub sized : sized_behind q p ≡ true
