-- ===== src/Database/Retries.antt =====
-- About statements that are sent again after a lost connection.
use social_sentiment.Database.{
  Attempt, commits, lost_before, lost_after, fails, attempt, with_reconnect, insert_scored_batch,
  insert_batch, PostTables,
}
use social_sentiment.Database.Insertion.{Distinct, insert_batch_twice}
use social_sentiment.Prelude.{Dict, String, Option, List, ℕ, ◌≡◌, some, none}
use social_sentiment.Schemas.{Score, ScoredPost}
use social_sentiment.Outcome.{Error, ok}

-- When the batch is answered, whatever connections were lost, the table of posts is the one that a
-- single insert leaves.
pub insert_scored_batch_once :
    (dumps : Dict Score → String) (first second : Attempt) (reconnect : Option Error)
    (posts : List ScoredPost) (t t' : PostTables) (n : ℕ)
    → Distinct t.posts
    → insert_scored_batch dumps first reconnect second posts t ≡ (ok n, t')
    → t'.posts ≡ (insert_batch dumps posts t).1.posts
unfolding insert_scored_batch with_reconnect attempt
insert_scored_batch_once dumps commits second reconnect posts t t' n d e = cc
insert_scored_batch_once dumps (fails x) second reconnect posts t t' n d e = cc
insert_scored_batch_once dumps (lost_before x) second (some y) posts t t' n d e = cc
insert_scored_batch_once dumps (lost_after x) second (some y) posts t t' n d e = cc
insert_scored_batch_once dumps (lost_before x) commits none posts t t' n d e = cc
insert_scored_batch_once dumps (lost_before x) (lost_before y) none posts t t' n d e = cc
insert_scored_batch_once dumps (lost_before x) (lost_after y) none posts t t' n d e = cc
insert_scored_batch_once dumps (lost_before x) (fails y) none posts t t' n d e = cc
insert_scored_batch_once dumps (lost_after x) commits none posts t t' n d e =
    let (_, _, _, _, same) = insert_batch_twice dumps posts t d in cc (e, same)
insert_scored_batch_once dumps (lost_after x) (lost_before y) none posts t t' n d e = cc
insert_scored_batch_once dumps (lost_after x) (lost_after y) none posts t t' n d e = cc
insert_scored_batch_once dumps (lost_after x) (fails y) none posts t t' n d e = cc
