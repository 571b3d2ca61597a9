-- ===== src/Tests/Aggregate.antt =====
-- Partial aggregation of two parts of a column.
use minispark.Common.{List, [], ◌∷◌, ◌++◌, ◌≡◌, ok}
use minispark.Common.Int.{pos, negsuc}
use minispark.Core.Value.{Value, null, int}
use minispark.Expressions.Syntax.{avg}
use minispark.Expressions.Aggregate.{State, initialize, merge}
use minispark.Expressions.Aggregate.Partial.{update_all, merge-update_all}
use minispark.Tests.{sample_host}

abbrev first_part : List Value
first_part = int (pos 3) ∷ null ∷ []

abbrev second_part : List Value
second_part = int (negsuc 0) ∷ int (pos 4) ∷ []

merge-update_all_example :
    (a b whole : State) × (update_all avg (initialize avg) first_part ≡ ok a)
    × (update_all avg (initialize avg) second_part ≡ ok b)
    × (update_all avg (initialize avg) (first_part ++ second_part) ≡ ok whole)
    × (merge avg a b ≡ ok whole)
merge-update_all_example =
    merge-update_all avg first_part second_part tt (tt, (tt, tt)) (tt, (tt, tt))
