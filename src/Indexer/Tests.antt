-- ===== src/Indexer/Tests.antt =====
-- A table of three places, of which the first is taken.
use nea.Base.{◌==◌, ◌≡◌, refl, some, if◌then◌else◌}
use nea.Indexer.{Indexer, insert, insert_from}
use nea.Indexer.Places.{insert-Inserts, Inserts}

abbrev three_places : Indexer
three_places = record { size = 3; handle = λ i. if i == 0 then 9 else 0 }

insert_second : (insert three_places 7).0 ≡ some 1
unfolding insert insert_from
insert_second = refl

insert-Inserts_example :
    Inserts three_places 7 0 (insert three_places 7).0 (insert three_places 7).1
insert-Inserts_example = insert-Inserts three_places 7
