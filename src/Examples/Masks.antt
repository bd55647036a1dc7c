-- ===== src/Examples/Masks.antt =====
-- Runs of `match`, and its theorems at concrete masks.
use acidblood.Common.{◌≡◌, refl, true, false, some, arith, codes}
use acidblood.Match.{match}
use acidblood.Match.Wildcard.{Matches}
use acidblood.Match.Decides.{Answers, match-Answers}

backtracks : match (codes "*.ex?mple.NET") (codes "a.ex.example.net") ≡ some true
unfolding match
backtracks = refl

refuses : match (codes "*!*@*.org") (codes "a!b@c.net") ≡ some false
unfolding match
refuses = refl

only_star : match (codes "*") (codes "abc") ≡ some true
unfolding match
only_star = refl

quoted_star : match (codes "a\\*") (codes "a*") ≡ some true
unfolding match
quoted_star = refl

quoted_star_alone : match (codes "a\\*") (codes "ab") ≡ some false
unfolding match
quoted_star_alone = refl

-- The quote is forgotten when the star in front of it takes more.
quote_lost : match (codes "*\\?") (codes "ab") ≡ some true
unfolding match
quote_lost = refl

match-Answers_example :
    Answers (Matches (codes "a*C") (codes "abbc")) (match (codes "a*C") (codes "abbc"))
match-Answers_example =
    match-Answers (codes "a*C") (codes "abbc") (λ e. cc) (omega arith) (omega arith) (omega arith)
