-- ===== src/Tests/Printed.antt =====
-- A query written from its phrases.
use proyecto_estructura.Prelude.{◌≡◌, refl, true, Option, some, List, [], ◌∷◌, map, Str, codes}
use proyecto_estructura.Prelude.Int.{negsuc}
use proyecto_estructura.Outcome.{ok, ◌>>=◌}
use proyecto_estructura.Parser.Tokens.{
  KeywordE, SymbolE, Double, Identifier, Numbers, keyword, symbol, numbers, identifier, bool,
}
use proyecto_estructura.Parser.Patterns.{is_name_text}
use proyecto_estructura.Parser.Tokenizer.Lexemes.{text, render}
use proyecto_estructura.Parser.Parse.{parse}
use proyecto_estructura.Parser.Parse.Phrases.{Phrase, are_phrases, lexeme, all_tokens}
use proyecto_estructura.Parser.Parse.RoundTrip.{parse-render}
use proyecto_estructura.Automata.Run.{get_action_struct}
use proyecto_estructura.Server.Query.{Reply, check_query}
use proyecto_estructura.Server.Query.Printed.{check_query-render}

abbrev insertion : List Phrase
insertion =
    Phrase.word KeywordE.insert
    ∷ Phrase.word KeywordE.into
    ∷ Phrase.member (record { name = codes "a"; sub = codes "b" })
    ∷ Phrase.mark SymbolE.opening_par
    ∷ Phrase.uint 12
    ∷ Phrase.mark SymbolE.coma
    ∷ Phrase.minus 7
    ∷ Phrase.mark SymbolE.coma
    ∷ Phrase.flag true
    ∷ Phrase.mark SymbolE.closing_par
    ∷ Phrase.mark SymbolE.semicolon
    ∷ []

insertion-written :
    render text (map lexeme insertion) ≡ codes "INSERT INTO a.b ( 12 , -7 , true ) ; "
insertion-written = refl

insertion-are_phrases : are_phrases insertion ≡ true
unfolding is_name_text
insertion-are_phrases = refl

-- every double is read as zero
abbrev zero_stod : Str → Option Double
zero_stod s = some (record { bits = 0 })

insertion-tokens :
    all_tokens insertion
    ≡ keyword KeywordE.insert
      ∷ keyword KeywordE.into
      ∷ identifier (Identifier.name_and_sub (record { name = codes "a"; sub = codes "b" }))
      ∷ symbol SymbolE.opening_par
      ∷ numbers (Numbers.uint 12)
      ∷ symbol SymbolE.coma
      ∷ numbers (Numbers.int (negsuc 6))
      ∷ symbol SymbolE.coma
      ∷ bool true
      ∷ symbol SymbolE.closing_par
      ∷ symbol SymbolE.semicolon
      ∷ []
insertion-tokens = refl

parse-render_example :
    parse zero_stod (render text (map lexeme insertion)) ≡ ok (all_tokens insertion)
parse-render_example = parse-render zero_stod insertion insertion-are_phrases

check_query-render_example :
    check_query zero_stod (render text (map lexeme insertion))
    ≡ (do a ← get_action_struct (all_tokens insertion); ok (Reply.answered a))
check_query-render_example = check_query-render zero_stod insertion insertion-are_phrases
