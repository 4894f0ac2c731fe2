-- ===== src/Tests/Metrics.antt =====
-- A line of a scrape whose label has a comma, a quote and a brace.
use awsbnkctl.Base.{◌≡◌, refl, Option, none, some, List, [], ◌∷◌, bytes_eq, codes, if◌then◌else◌}
use awsbnkctl.Float64.{Float64, double}
use awsbnkctl.Genai.{
  Text, Sample, parse_sample_line, parse_exposition, cut_name, sample_of, parse_labels, label_block,
  first_field, lines, parse_lines, trim,
}
use awsbnkctl.Genai.Labels.{put_labels}
use awsbnkctl.Genai.RoundTrip.{sample_text, parse_sample_line-text}

abbrev half : Text → Option Float64
half t = if bytes_eq t (codes "0.5") then some (double 1 1073) else none

abbrev tags : List (Text × Text)
tags = (codes "model", codes "a,\"}b") ∷ (codes "role", codes "decode") ∷ []

abbrev hit : Sample
hit = record { name = codes "hits"; labels = tags; value = double 1 1073 }

scraped :
    parse_exposition half
      (codes "# HELP hits\nhits{model=\"a,\\\"}b\",role=\"decode\"} 0.5 17\nbad\n")
    ≡ hit ∷ []
unfolding parse_exposition parse_lines lines trim parse_sample_line cut_name sample_of parse_labels
    label_block first_field double
scraped = refl

parse_sample_line-text_example :
    parse_sample_line half (sample_text (codes "hits") tags (codes "0.5"))
    ≡ some (record { name = codes "hits"; labels = put_labels tags []; value = double 1 1073 })
parse_sample_line-text_example =
    parse_sample_line-text half (codes "hits") tags (codes "0.5") (double 1 1073)
      (refl, (refl, (refl, (refl, tt))))
      ((refl, (refl, (refl, (refl, (refl, tt))))), ((refl, (refl, (refl, (refl, tt)))), tt))
      (refl, (refl, (refl, tt))) (λ e. cc) refl
