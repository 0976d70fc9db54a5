-- ===== src/Cli/Mcp/Reaching.antt =====
-- Which server the calls of `run_mcp` of crates/guardian-cli/src/main.rs reach in front of upstream servers.
use project_guardian.Common.{
  sym, subst, Bool, true, false, Option, none, some, Map, List, [], ◌∷◌, Text, member, lookup,
  text_eq, text_eq_iff, text_eq_refl, Bool-cases, Option-cases, inl, inr, Result, ok, err,
  >>=-eq-ok, ok-injective, contains, ◌++◌, ◌≡◌, ◌≢◌, refl, arith,
}
use project_guardian.Core.{Value}
use project_guardian.Broker.Store.{Broker, inject}
use project_guardian.Gateway.Call.{ToolCall}
use project_guardian.Gateway.Upstream.{Server, add, sep, namespaced_name}
use project_guardian.Gateway.Upstream.Routing.{
  forward-namespaced_name, IsClean, split_at_first-IsClean,
}
use project_guardian.Cli.Brokered.{forward_with, target_of, brokered_args, scrubbed}
use project_guardian.Cli.Mcp.{
  parse_upstream, label_of, Gathered, gather, launch, spawned, registered, fronted_forward,
  is_blank,
}

-- What a specification says.
abbrev pub label_in : Bool → Text → Text
label_in single spec = label_of single (parse_upstream spec).0 (parse_upstream spec).1.0

abbrev pub program_in : Text → Text
program_in spec = (parse_upstream spec).1.0

abbrev pub arguments_in : Text → List Text
arguments_in spec = (parse_upstream spec).1.1

module _ (spawn : Text → List Text → Result Server Text) (single : Bool) where
  -- The server that the program of a specification became stands under its label.
  Serves : Gathered → Text → Type 0
  Serves (servers, labels) spec =
      (server : Server) × (spawn (program_in spec) (arguments_in spec) ≡ ok server)
      × (lookup (label_in single spec) servers ≡ some server)
      × (member (label_in single spec) labels ≡ true)

  -- What stood in the maps stands there still.
  Keeps : Gathered → Gathered → Type 0
  Keeps (servers, labels) (servers', labels') =
      ((label : Text) (server : Server)
        → lookup label servers ≡ some server
        → lookup label servers' ≡ some server)
      × ((label : Text) → member label labels ≡ true → member label labels' ≡ true)

  registered-eq-ok :
      (label : Text) (server : Server) (servers : Map Server) (labels : List Text) (g' : Gathered)
      → registered spawn label (add label server servers) labels ≡ ok g'
      → (lookup label servers ≡ none) × (((label, server) ∷ servers, label ∷ labels) ≡ g')
  unfolding registered add
  registered-eq-ok label server servers labels g' h = elim (Option-cases (lookup label servers)) [
    | inl free ↦ (free, ok-injective (rw free at h))
    | inr (other, taken) ↦ ground (arith, rw taken at h)
  ]

  Keeps-added :
      (label : Text) (server : Server) (servers : Map Server) (labels : List Text)
      → lookup label servers ≡ none
      → Keeps (servers, labels) ((label, server) ∷ servers, label ∷ labels)
  unfolding Keeps lookup member
  Keeps-added label server servers labels free = (
    λ l s held. ground (arith, text_eq_iff label l, free, held),
    λ l among. ground (arith, among),
  )

  spawned-eq-ok :
      (program : Text) (r : Result Server Text) (server : Server)
      → spawned spawn program r ≡ ok server
      → r ≡ ok server
  unfolding spawned
  spawned-eq-ok program (ok s) server h = h
  spawned-eq-ok program (err e) server h = ground (arith, h)

  Serves-added :
      (spec : Text) (server : Server) (servers : Map Server) (labels : List Text)
      → spawn (program_in spec) (arguments_in spec) ≡ ok server
      → Serves ((label_in single spec, server) ∷ servers, label_in single spec ∷ labels) spec
  unfolding Serves lookup member
  Serves-added spec server servers labels started = (
    server,
    started,
    rw (text_eq_refl (label_in single spec)) refl,
    rw (text_eq_refl (label_in single spec)) refl,
  )

  launched_lem :
      (spec : Text) (server : Server) (servers : Map Server) (labels : List Text) (g' : Gathered)
      → spawn (program_in spec) (arguments_in spec) ≡ ok server
      → registered spawn (label_in single spec) (add (label_in single spec) server servers) labels
        ≡ ok g'
      → Keeps (servers, labels) g' × Serves g' spec
  launched_lem spec server servers labels g' started h =
      let (free, added) = registered-eq-ok (label_in single spec) server servers labels g' h in
      subst (λ g. Keeps (servers, labels) g × Serves g spec) added
        (
          Keeps-added (label_in single spec) server servers labels free,
          Serves-added spec server servers labels started,
        )

  launch-eq-ok :
      (spec : Text) (g g' : Gathered)
      → launch spawn single (parse_upstream spec) g ≡ ok g'
      → Keeps g g' × Serves g' spec
  unfolding launch
  launch-eq-ok spec (servers, labels) g' h = elim (Bool-cases (is_blank (program_in spec))) [
    | inl blank ↦ ground (arith, rw blank at h)
    | inr named ↦
        let (server, started, registering) =
          >>=-eq-ok (spawned spawn (program_in spec) (spawn (program_in spec) (arguments_in spec)))
            _ (rw named at h) in
        launched_lem spec server servers labels g' (spawned-eq-ok _ _ server started) registering
  ]

  Keeps-refl : (g : Gathered) → Keeps g g
  unfolding Keeps
  Keeps-refl g = ((λ l s h. h), (λ l h. h))

  Keeps-trans : (f g h : Gathered) → Keeps f g → Keeps g h → Keeps f h
  unfolding Keeps
  Keeps-trans f g h (a, b) (c, d) = ((λ l s held. c l s (a l s held)), (λ l among. d l (b l among)))

  Serves-Keeps : (g h : Gathered) (spec : Text) → Keeps g h → Serves g spec → Serves h spec
  unfolding Keeps Serves
  Serves-Keeps g h spec (a, b) (server, started, held, among) =
      (server, started, a _ server held, b _ among)

  -- Every specification is served, once all are.
  gather-Serves :
      (specs : List Text) (g g' : Gathered)
      → gather spawn single specs g ≡ ok g'
      → Keeps g g' × ((spec : Text) → member spec specs ≡ true → Serves g' spec)
  unfolding gather member
  gather-Serves [] g g' h =
      (subst (λ k. Keeps g k) (ok-injective h) (Keeps-refl g), λ spec among. ground (arith, among))
  gather-Serves (s ∷ specs) g g' h =
      let (k, first, rest) = >>=-eq-ok (launch spawn single (parse_upstream s) g) _ h in
      let (kept, here) = launch-eq-ok s g k first in
      let (later, there) = gather-Serves specs k g' rest in
      (
        Keeps-trans g k g' kept later,
        λ spec among. elim (Bool-cases (text_eq spec s)) [
          | inl same ↦
              subst (λ t. Serves g' t) (sym ((text_eq_iff spec s).0 same))
                (Serves-Keeps k g' s later here)
          | inr other ↦ there spec (rw other at among)
        ],
      )

  -- What is sent to the server of a label, with the broker's token for it if there are secrets.
  abbrev pub credited : Option Broker → Text → Value → Value
  credited none label args = args
  credited (some broker) label args = (inject broker label (scrubbed args)).1

  target_of-namespaced_name :
      (label tool : Text)
      → label ≢ []
      → IsClean label
      → target_of (namespaced_name label tool) ≡ label
  unfolding target_of namespaced_name
  target_of-namespaced_name [] tool named clean = absurd (named refl)
  target_of-namespaced_name (c ∷ label) tool named clean =
      rw (split_at_first-IsClean (c ∷ label) tool clean) refl

  Serves-forward :
      (broker : Option Broker) (g : Gathered) (spec tool : Text) (call : ToolCall)
      → Serves g spec
      → label_in single spec ≢ []
      → IsClean (label_in single spec)
      → (server : Server) × (spawn (program_in spec) (arguments_in spec) ≡ ok server)
        × (fronted_forward broker g
              (record call { tool = namespaced_name (label_in single spec) tool })
            ≡ server.forward (record {
              tool = tool;
              args = credited broker (label_in single spec) call.args;
              kind = none;
              capability = none;
              session = none;
            }))
  unfolding Serves fronted_forward forward_with brokered_args
  Serves-forward none (servers, labels) spec tool call (server, started, held, among) named clean =
      (
        server,
        started,
        forward-namespaced_name servers (label_in single spec) tool server call named held clean,
      )
  Serves-forward (some broker) (servers, labels) spec tool call (server, started, held, among) named
        clean =
      (
        server,
        started,
        rw (target_of-namespaced_name (label_in single spec) tool named clean, among)
            (forward-namespaced_name servers (label_in single spec) tool server
              (record call { args = (inject broker (label_in single spec) (scrubbed call.args)).1 })
              named held clean),
      )

  -- Where all specifications of upstreams were started: a call of a tool under the name that is advertised
  -- for a specification with a label, in which no separator begins, not even with its last character,
  -- reaches the server that this specification started, under the tool's own name, with the
  -- agent's arguments, and with secrets with the broker's token for that label in them.
  pub gather-forward :
      (specs : List Text) (g : Gathered) (broker : Option Broker) (spec tool : Text)
      (call : ToolCall)
      → gather spawn single specs ([], []) ≡ ok g
      → member spec specs ≡ true
      → label_in single spec ≢ []
      → contains (label_in single spec ++ (b'_' ∷ [])) sep ≡ false
      → (server : Server) × (spawn (program_in spec) (arguments_in spec) ≡ ok server)
        × (fronted_forward broker g
              (record call { tool = namespaced_name (label_in single spec) tool })
            ≡ server.forward (record {
              tool = tool;
              args = credited broker (label_in single spec) call.args;
              kind = none;
              capability = none;
              session = none;
            }))
  gather-forward specs g broker spec tool call started among named clean =
      Serves-forward broker g spec tool call ((gather-Serves specs ([], []) g started).1 spec among)
        named clean
