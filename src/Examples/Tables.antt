-- ===== src/Examples/Tables.antt =====
-- The theorems on the tables of the database at concrete inputs.
use social_sentiment.Database.Insertion.{Distinct, insert_batch_twice}
use social_sentiment.Database.{
  PostTables, insert_scored_batch, insert_batch, with_reconnect, attempt, lost_after, commits,
}
use social_sentiment.Prelude.{Dict, List, [], String, length, ◌∷◌, ◌≡◌, ◌+◌, ◌≤◌, none, refl}
use social_sentiment.Schemas.{Score, ScoredPost}
use social_sentiment.Examples.{scored_post, failure}
use social_sentiment.Database.Retries.{insert_scored_batch_once}

abbrev empty_tables : PostTables
empty_tables = record { posts = []; quality = [] }

abbrev dumps_nothing : Dict Score → String
dumps_nothing scores = "{}"

abbrev two_posts : List ScoredPost
two_posts = scored_post ∷ scored_post ∷ []

insert_batch_twice_example :
    let (n, t') = insert_batch dumps_nothing two_posts empty_tables in
    Distinct t'.posts
    × (length t'.posts ≡ 0 + n)
    × (n ≤ 2)
    × ((insert_batch dumps_nothing two_posts t').0 ≡ 0)
    × ((insert_batch dumps_nothing two_posts t').1.posts ≡ t'.posts)
insert_batch_twice_example = insert_batch_twice dumps_nothing two_posts empty_tables tt

insert_scored_batch_once_example :
    (insert_batch dumps_nothing two_posts
      (insert_batch dumps_nothing two_posts empty_tables).1).1.posts
    ≡ (insert_batch dumps_nothing two_posts empty_tables).1.posts
unfolding insert_scored_batch with_reconnect attempt
insert_scored_batch_once_example =
    insert_scored_batch_once dumps_nothing (lost_after failure) commits none two_posts empty_tables
      (insert_batch dumps_nothing two_posts (insert_batch dumps_nothing two_posts empty_tables).1).1
      (insert_batch dumps_nothing two_posts (insert_batch dumps_nothing two_posts empty_tables).1).0
      tt refl
