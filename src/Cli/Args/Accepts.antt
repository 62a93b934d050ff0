-- ===== src/Cli/Args/Accepts.antt =====
-- What an accepted command line is made of, and what of it is passed on to claude.
use docker_claudebox.Cli.Args.{output_format_flag, allowed_output_formats, ProgArgs, is_print}
use docker_claudebox.Cli.Args.Items.{
  IsAllowed, Item, flat, is_print_item, passed_on, prompt_of, sets_format, spell, wants_verbose,
}
use docker_claudebox.Base.{
  All, List, Text, [], any, contains, if◌then◌else◌, keep, not, text, text_eq, true, ◌++◌, ◌∷◌, ◌≡◌,
}

-- What a caller may rely on when a command line was accepted.
pub record IsAccepted (argv : List Text) (r : ProgArgs) : Type 0 where
  pub items : List Item
  pub spelled : argv ≡ flat spell items
  pub allowed : All IsAllowed items
  pub one_prompt : flat prompt_of items ≡ r.prompt ∷ []
  pub printed : any is_print_item items ≡ true
  pub format : contains allowed_output_formats r.output_format ≡ true
  pub passed :
      r.claude_args
      ≡ text "-p"
        ∷ (keep (λ a. not (is_print a)) (flat passed_on items)
            ++ ((if any sets_format items then [] else output_format_flag ∷ r.output_format ∷ [])
                ++ (if any wants_verbose items then text "--verbose" ∷ [] else [])))
