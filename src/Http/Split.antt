-- ===== src/Http/Split.antt =====
-- http_parser.c: what a stream's division into calls of `http_parser_execute` changes. Two runs are
-- compared, on different inputs and at different offsets; a child for each file of states.
mod Version
mod Response
mod Request
mod Url
mod Header
mod Body
mod Round
mod Wide
pub mod Feed
mod Byte
mod Shrink
pub mod Calls
pub mod Pieces
use mathlib.Core.Path.{subst, ap₂}
use projectmoo.Base.{ℕ, ◌+◌, ◌≡◌, refl, sym, ◌∙◌, Option, none, some, arith, Bytes}
use projectmoo.Http.Frame.{Frame, returned, fault, Flow, next, halt, notify, report}
use projectmoo.Http.Types.{Errno, s_dead, h_general, Parser, Settings}

-- A parser without the four fields that are stored only at the end of a call.
abbrev pub forget : Parser → Parser
forget q = record q { state = s_dead; header_state = h_general; index = 0; nread = 0 }

-- A callback that does not look at these fields.
abbrev pub Oblivious : {W : Type 0} → Option (Parser → W → ℕ × W) → Type 0
Oblivious none = Unit
Oblivious (some cb) = (q : Parser) (w : _) → cb q w ≡ cb (forget q) w

-- Callbacks for events only, that do not look at these fields.
pub record IsQuiet {W : Type 0} (settings : Settings W) : Type 0 where
  pub no_url : settings.on_url ≡ none
  pub no_field : settings.on_header_field ≡ none
  pub no_value : settings.on_header_value ≡ none
  pub no_body : settings.on_body ≡ none
  pub begin_blind : Oblivious settings.on_message_begin
  pub headers_blind : Oblivious settings.on_headers_complete
  pub complete_blind : Oblivious settings.on_message_complete

-- The same variables, but for the marks and what the parser has stored, at offsets that differ by `k`.
pub record Alike {W : Type 0} (k : ℕ) (f g : Frame W) : Type 0 where
  pub parser : forget f.parser ≡ forget g.parser
  pub world : f.world ≡ g.world
  pub state : f.state ≡ g.state
  pub header_state : f.header_state ≡ g.header_state
  pub index : f.index ≡ g.index
  pub nread : f.nread ≡ g.nread
  pub offset : f.p ≡ k + g.p

abbrev pub SameFlow : {W : Type 0} → ℕ → Flow W → Flow W → Type 0
SameFlow k (next f) (next g) = Alike k f g
SameFlow k (halt (returned q w n)) (halt (returned r v m)) =
    (forget q ≡ forget r) × (w ≡ v) × (n ≡ k + m)
SameFlow k (halt fault) (halt fault) = Unit
SameFlow k _ _ = ⊥

module _ {W : Type 0} {k : ℕ} where
  pub notify-SameFlow :
      (cb : Option (Parser → W → ℕ × W)) (e : Errno) (f g : Frame W) (rest rest' : Frame W → Flow W)
      → Oblivious cb
      → Alike k f g
      → ((w : W) → SameFlow k (rest (record f { world = w })) (rest' (record g { world = w })))
      → SameFlow k (notify cb e f rest) (notify cb e g rest')
  unfolding notify
  notify-SameFlow none e f g rest rest' blind a h =
      subst (λ w. SameFlow k (rest f) (rest' (record g { world = w }))) a.world (h f.world)
  notify-SameFlow (some cb) e f g rest rest' blind a h =
      let same : cb f.parser f.world ≡ cb g.parser g.world =
        blind f.parser f.world ∙ ap₂ cb a.parser a.world ∙ sym (blind g.parser g.world) in
      ground (arith, same, h (cb f.parser f.world).1)

module _ {W : Type 0} where
  -- With no callback, `CALLBACK` only clears the mark.
  pub report-none :
      (cb : Option (Parser → Bytes → W → ℕ × W)) (input : Bytes) (mark : Option ℕ) (e : Errno)
      (f : Frame W) (rest : Frame W → Flow W)
      → cb ≡ none
      → report cb input mark e f rest ≡ rest f
  unfolding report
  report-none cb input none e f rest h = refl
  report-none none input (some m) e f rest h = refl
  report-none (some cb) input (some m) e f rest h = cc
