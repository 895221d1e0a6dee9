-- ===== src/Table/TypeCheck.antt =====
-- src/lib/table.hpp, `DatabaseTable::try_insert`: the test of the values against the columns that
-- comes before any file is written.
use proyecto_estructura.Prelude.{◌==◌, List, [], ◌∷◌, Str, length}
use proyecto_estructura.Outcome.{Outcome, ok, thrown, undefined_behaviour, ◌>>=◌, ◌>>◌, require}
use proyecto_estructura.LinkedList.KeyValueList.{KeyValueList}
use proyecto_estructura.Serializer.Layout.{Layout}
use proyecto_estructura.Automata.Actions.{Value}
use proyecto_estructura.Column.Cast.{Cell, push_messages, cast}

-- The loop over `values.len()`. It follows `current_column` without a test, so that it needs a
-- column for each value.
unfoldable pub to_insert : List Value → KeyValueList Str Layout → Outcome (List Cell)
to_insert [] columns = ok []
to_insert (v ∷ vs) [] = thrown undefined_behaviour
to_insert (v ∷ vs) (column ∷ columns) =
    cast push_messages v column.value >>= λ c. to_insert vs columns >>= λ cs. ok (c ∷ cs)

-- What is in `to_insert` when the loop ends.
unfoldable pub type_check : List Value → KeyValueList Str Layout → Outcome (List Cell)
unfolding to_insert
type_check values columns =
    require (length values == length columns) "The number of fields does not match."
    >> to_insert values columns
