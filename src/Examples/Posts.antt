-- ===== src/Examples/Posts.antt =====
-- The theorems on posts and their text at concrete inputs.
use social_sentiment.Schemas.{
  validate_probability_scores, make_scored_post, assemble, parse_sentiment,
}
use social_sentiment.Text.Normal.{StartsClean, Single, EndsClean, clean_text_normal}
use social_sentiment.Examples.{fair_scores, ascii, scored_post, clean_post}
use social_sentiment.Prelude.{◌≡◌, chars, ◌↔◌, some, refl}
use social_sentiment.Text.{clean_text}
use social_sentiment.Outcome.{ok}
use social_sentiment.Schemas.Validation.{HasDistribution, validate_exact, make_scored_post_sound}

validate_exact_example :
    (validate_probability_scores fair_scores ≡ ok tt) ↔ HasDistribution fair_scores
validate_exact_example = validate_exact fair_scores

make_scored_post_sound_example :
    (scored_post.clean ≡ clean_post)
    × (parse_sentiment "positive" ≡ some scored_post.sentiment)
    × (scored_post.scores ≡ fair_scores)
    × HasDistribution fair_scores
unfolding make_scored_post validate_probability_scores assemble
make_scored_post_sound_example =
    make_scored_post_sound clean_post "positive" fair_scores 5 "v" "hash" scored_post refl

clean_text_normal_example :
    StartsClean ascii.is_space (clean_text ascii (chars " up  again "))
    × Single ascii.is_space (clean_text ascii (chars " up  again "))
    × EndsClean ascii.is_space (clean_text ascii (chars " up  again "))
clean_text_normal_example = clean_text_normal ascii (chars " up  again ")
