-- ===== src/Json.antt =====
-- JSON.stringify and JSON.parse at one type (cjson.decode in a script reads the same texts): a pair
-- of functions, of which the program needs that what it wrote is read back.
use baileys_api.Prelude.{String, ◌≡◌, Option, none, some, ◌==◌, if◌then◌else◌}

pub record Codec (A : Type 0) : Type 0 where
  pub stringify : A → String
  -- `none` is a SyntaxError
  pub parse : String → Option A

abbrev pub RoundTrips : {A : Type 0} → Codec A → Type 0
RoundTrips {A} c = (a : A) → c.parse (c.stringify a) ≡ some a

-- What a reply of GET stands for, `none` where there is none or it cannot be read.
abbrev pub decode : {A : Type 0} → Codec A → Option String → Option A
decode c none = none
decode c (some raw) = c.parse raw

-- `raw ? JSON.parse(raw) : null` inside a try block whose catch gives up too.
abbrev pub decode_or_none : {A : Type 0} → Codec A → Option String → Option A
decode_or_none c none = none
decode_or_none c (some raw) = if raw == "" then none else c.parse raw
