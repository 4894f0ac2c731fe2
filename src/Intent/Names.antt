-- ===== src/Intent/Names.antt =====
-- The name patterns of internal/intent.
use awsbnkctl.Base.{[], ◌∷◌}
use awsbnkctl.Regex.{Regex, class, alt, seq, star, upto, plus, char}

abbrev lower : Regex
lower = class ((b'a', b'z') ∷ [])

abbrev lower_digit : Regex
lower_digit = class ((b'a', b'z') ∷ (b'0', b'9') ∷ [])

abbrev lower_digit_dash : Regex
lower_digit_dash = class ((b'a', b'z') ∷ (b'0', b'9') ∷ (b'-', b'-') ∷ [])

-- ^[a-z][0-9a-z]+\.[a-z0-9]+$
abbrev pub instance_type_re : Regex
instance_type_re = seq lower (seq (plus lower_digit) (seq (char b'.') (plus lower_digit)))

-- ^ml\.[a-z][0-9a-z]+\.[a-z0-9]+$
abbrev pub sage_maker_instance_type_re : Regex
sage_maker_instance_type_re = seq (char b'm') (seq (char b'l') (seq (char b'.') instance_type_re))

-- ^[a-z0-9][a-z0-9-]*[a-z0-9]$|^[a-z0-9]$
abbrev pub node_group_name_re : Regex
node_group_name_re = alt (seq lower_digit (seq (star lower_digit_dash) lower_digit)) lower_digit

-- ^[a-z][a-z0-9-]{0,38}[a-z0-9]$
abbrev pub cluster_name_re : Regex
cluster_name_re = seq lower (seq (upto 38 lower_digit_dash) lower_digit)
