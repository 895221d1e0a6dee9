-- ===== src/Automata/InsertQuery/Grammar.antt =====
-- The queries `INSERT INTO DATABASE.TABLE (v, w, ...);` as a grammar of tokens.
use proyecto_estructura.Prelude.{◌≡◌, refl, false, some, List, [], ◌∷◌, ◌++◌, arith, key_eq}
use proyecto_estructura.Parser.Compare.{same_variant_and_value}
use proyecto_estructura.Parser.Tokens.{
  KeywordE, SymbolE, Identifier, Token, keyword, symbol, identifier,
}
use proyecto_estructura.Automata.Actions.{Action, Value, Insert, Context}
use proyecto_estructura.Automata.State.{State, Window, is_symbol}
use proyecto_estructura.Automata.Values.{on_value}
use proyecto_estructura.Automata.Run.{visit}
use proyecto_estructura.Automata.Recognize.{value_token}

-- The values behind `(`, with a comma allowed after the last one.
pub data Row : List Value → List Token → Type 0 where
  last :
      (v : Value)
      → Row (v ∷ []) (value_token v ∷ symbol SymbolE.closing_par ∷ symbol SymbolE.semicolon ∷ [])
  trailing :
      (v : Value)
      → Row (v ∷ []) (
          value_token v
          ∷ symbol SymbolE.coma
          ∷ symbol SymbolE.closing_par
          ∷ symbol SymbolE.semicolon
          ∷ [])
  more :
      {vs : List Value} {ts : List Token} (v w : Value)
      → Row (w ∷ vs) (value_token w ∷ ts)
      → Row (v ∷ w ∷ vs) (value_token v ∷ symbol SymbolE.coma ∷ value_token w ∷ ts)

abbrev pub inserting : Insert → State
inserting i = record { ctx = Context.insert_e; variant = some (Action.insert i) }

abbrev pub add : Insert → List Value → Insert
add i vs = record i { values = i.values ++ vs }

-- The whole query.
pub record InsertQuery (i : Insert) (ts : List Token) : Type 0 where
  pub row : List Token
  pub row_values : Row i.values row
  pub tokens :
      ts
      ≡ keyword KeywordE.insert
        ∷ keyword KeywordE.into
        ∷ identifier (Identifier.name_and_sub (record { name = i.database; sub = i.table }))
        ∷ symbol SymbolE.opening_par
        ∷ row

pub visit-value : (s : State) (w : Window) (v : Value) → visit s w (value_token v) ≡ on_value s w v
unfolding visit
visit-value s w (Value.string t) = refl
visit-value s w (Value.uint n) = refl
visit-value s w (Value.int n) = refl
visit-value s w (Value.double d) = refl
visit-value s w (Value.bool b) = refl

pub closing-value : (v : Value) → is_symbol SymbolE.closing_par (value_token v) ≡ false
unfolding same_variant_and_value
closing-value v = ground arith
