-- ===== src/Command/Table.antt =====
-- command.c: what the table of commands promises to the functions that use it.
use cpc_cplink.Prelude.{
  ℕ, zero, suc, ◌≤◌, ◌<◌, ◌≡◌, refl, Bool, true, false, ◌&&◌, none, some, List, [], ◌∷◌, ◌+◌, subst,
  get_elem?, arith, length, leb, ◌==◌, All, get_elem?-past,
}
use cpc_cplink.Prelude.Text.{strcmp_eq}
use cpc_cplink.Queue.{Queue, is_queue_space_available}
use cpc_cplink.Queue.Holds.{Holds, Holds-space}
use cpc_cplink.Command.{
  CommandDef, command_defs, command_def, get_command_out_queue_space_required,
  get_command_name_from_id, get_command_id_from_string, find_command,
}
use cpc_cplink.Command.Id.{unknown, max_commands}

-- An entry in place: its id is its index, its name leads back to it, and its space is small.
entry_ok : ℕ → CommandDef → Bool
entry_ok i d =
    d.command_id == i
    && get_command_id_from_string d.command_text == i
    && leb d.out_queue_space 2048

-- The entries from index `i` on, each in place.
all_in_place : ℕ → List CommandDef → Bool
all_in_place i [] = true
all_in_place i (d ∷ defs) = let rest = all_in_place (suc i) defs in entry_ok i d && rest

all_in_place_lem :
    (defs : List CommandDef) (i k : ℕ)
    → all_in_place i defs ≡ true
    → k < length defs
    → (d : CommandDef) × (get_elem? defs k ≡ some d) × (entry_ok (i + k) d ≡ true)
unfolding all_in_place
all_in_place_lem [] i k ok lt = absurd (omega arith)
all_in_place_lem (d ∷ defs) i zero ok lt =
    let e : i ≡ i + 0 = omega arith in
    let here : entry_ok i d ≡ true = ground arith in
    (d, refl, subst (λ n. entry_ok n d ≡ true) e here)
all_in_place_lem (d ∷ defs) i (suc k) ok lt =
    let e : suc i + k ≡ i + suc k = omega arith in
    let behind : all_in_place (suc i) defs ≡ true = ground arith in
    let (c, at, fine) = all_in_place_lem defs (suc i) k behind (omega arith) in
    (c, at, subst (λ n. entry_ok n c ≡ true) e fine)

table_in_place : all_in_place 0 command_defs ≡ true
unfolding all_in_place entry_ok command_defs get_command_id_from_string
table_in_place = refl

table_size : length command_defs ≡ max_commands
unfolding command_defs
table_size = refl

-- An entry of the table, with what the check says of it.
pub record Entry (i : ℕ) (d : CommandDef) : Type 0 where
  pub at_index : command_def i ≡ some d
  pub own_id : d.command_id ≡ i
  pub name_leads_back : get_command_id_from_string d.command_text ≡ i
  pub space_small : d.out_queue_space ≤ 2048

-- Every id below `MaxCommands` has an entry of its own: it stands at its index, and its name
-- leads back to it.
pub command_def_lem : (i : ℕ) → i < max_commands → (d : CommandDef) × Entry i d
unfolding command_def entry_ok
command_def_lem i lt =
    let (d, at, fine) =
      all_in_place_lem command_defs 0 i table_in_place (omega (arith, table_size)) in
    (
      d,
      record {
        at_index = at;
        own_id = ground arith;
        name_leads_back = ground arith;
        space_small = ground arith;
      },
    )

-- From `MaxCommands` on the access misses the table.
pub command_def_past_end : (i : ℕ) → max_commands ≤ i → command_def i ≡ none
unfolding command_def
command_def_past_end i h = get_elem?-past command_defs i (omega arith)

-- For every command of the table, the name that `get_command_name_from_id` gives is found again by
-- `get_commandID_from_string`, as the same command.
pub name_round_trip :
    (i : ℕ)
    → i < max_commands
    → (text : List ℕ) × (get_command_name_from_id i ≡ some text)
      × (get_command_id_from_string text ≡ i)
unfolding get_command_name_from_id
name_round_trip i lt =
    let (d, e) = command_def_lem i lt in (d.command_text, rw e.at_index refl, e.name_leads_back)

search_misses :
    (defs : List CommandDef) (text : List ℕ)
    → All (λ (d : CommandDef). strcmp_eq d.command_text text ≡ false) defs
    → find_command defs text ≡ unknown
unfolding find_command
search_misses [] text h = refl
search_misses (d ∷ defs) text h = rw h.0 (search_misses defs text h.1)

-- A string that is the name of no command is taken for the unknown command.
pub name_of_none :
    (text : List ℕ)
    → All (λ (d : CommandDef). strcmp_eq d.command_text text ≡ false) command_defs
    → get_command_id_from_string text ≡ unknown
unfolding get_command_id_from_string
name_of_none text none_fits = search_misses command_defs text none_fits

-- An out_queue with at most 129000 unread bytes has the space that any command of the table asks
-- for: none waits for ever once the client reads.
pub space_when_drained :
    (i : ℕ) (out_queue : Queue) (l : List ℕ)
    → i < max_commands
    → Holds out_queue l
    → length l ≤ 129000
    → (space : ℕ) × (get_command_out_queue_space_required i ≡ some space)
      × (is_queue_space_available out_queue space ≡ true)
unfolding get_command_out_queue_space_required
space_when_drained i out_queue l lt h few =
    let (d, e) = command_def_lem i lt in
    (
      d.out_queue_space,
      rw e.at_index refl,
      Holds-space out_queue l d.out_queue_space h (omega (arith, e.space_small)),
    )
