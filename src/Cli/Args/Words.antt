-- ===== src/Cli/Args/Words.antt =====
-- Each round of the argument loop reads one word.
use mathlib.Core.List.{append-nil}
use docker_claudebox.Cli.Args.{
  output_format_flag, allowed_output_formats, allowed_efforts, flags_taking_value, ArgState,
  validate_value_for_flag, set_value, take_value, not_equals, after_equals, take_joined,
  take_positional, is_print, take_option, take_next,
}
use docker_claudebox.Cli.Args.Items.{
  IsOpen, Reading, TakesValue, and_right, imp_of_test, joined, no_continue, not-false, or_nothing,
  or_one, or_true, print, prompt, separate, some_injective, update,
}
use docker_claudebox.Base.{
  Bool-cases, List, Option, Result-cases, Text, [], any, ap, arith, contains, eq_iff, false,
  if_intro, inl, inr, nat_beq, nat_beq_iff, none, not, ok, ok_injective, refl, some, starts_with,
  sym, take_run, text, text_eq, true, ◌&&◌, ◌++◌, ◌==◌, ◌∷◌, ◌≡◌,
}

validated :
    (f v v' : Text)
    → contains flags_taking_value f ≡ true
    → validate_value_for_flag f v ≡ ok v'
    → TakesValue f v × (v ≡ v')
unfolding validate_value_for_flag
validated f v v' listed h =
    elim (Bool-cases (f == output_format_flag && not (contains allowed_output_formats v))) [
      | inl bad ↦ cc (rw bad at h)
      | inr format ↦ elim (Bool-cases (f == text "--effort" && not (contains allowed_efforts v))) [
        | inl bad ↦ cc (rw (format, bad) at h)
        | inr effort ↦ (
          record {
            listed = listed;
            format = λ e. imp_of_test _ _ format ((eq_iff f output_format_flag).1 e);
            effort = λ e. imp_of_test _ _ effort ((eq_iff f (text "--effort")).1 e);
          },
          ok_injective (rw (format, effort) at h),
        )
      ]
    ]

-- The state after a value that its flag takes.
set_value-IsOpen :
    (st : ArgState) (f v : Text) (passed : List Text)
    → IsOpen st
    → TakesValue f v
    → IsOpen (set_value st f v passed)
set_value-IsOpen st f v passed o takes = record {
  waits = λ g h. cc h;
  format =
      if_intro (λ w. contains allowed_output_formats w ≡ true) (f == output_format_flag)
        (λ h. takes.format ((eq_iff f output_format_flag).0 h)) (λ _. o.format);
}

value-Reading :
    (st : ArgState) (f arg : Text)
    → IsOpen st
    → st.expect_value ≡ some f
    → Reading st (arg ∷ []) (take_value st f arg)
unfolding take_value
value-Reading st f arg o e = elim (Result-cases (validate_value_for_flag f arg)) [
  | inl (bad, fails) ↦ rw fails tt
  | inr (value, passes) ↦
      let (takes, same) = validated f arg value (o.waits f e) passes in
      rw (passes, ← same)
        (record {
          items = separate f arg ∷ [];
          spelled = rw e refl;
          allowed = (takes, tt);
          passed = refl;
          printed = or_nothing st.has_print;
          prompts = sym (append-nil _);
          seen = or_one (f == output_format_flag) st.saw_output_format;
          verbose = or_one _ st.needs_verbose;
          still_open = set_value-IsOpen st f arg (f ∷ arg ∷ []) o takes;
        })
]

-- The text before the first `=` and that after it.
equals_split :
    (s : Text) → any (nat_beq b'=') s ≡ true → s ≡ take_run not_equals s ++ b'=' ∷ after_equals s
unfolding take_run after_equals
equals_split [] h = cc
equals_split (c ∷ s) h = elim (Bool-cases (nat_beq c b'=')) [
  | inl here ↦ rw here (ground (arith, nat_beq_iff c b'='))
  | inr later ↦
      rw later
        (ap (λ t. c ∷ t) (equals_split s (ground (arith, nat_beq_iff c b'=', nat_beq_iff b'=' c))))
]

joined-Reading :
    (st : ArgState) (arg : Text)
    → IsOpen st
    → st.expect_value ≡ none
    → any (nat_beq b'=') arg ≡ true
    → Reading st (arg ∷ []) (take_joined st arg)
unfolding take_joined
joined-Reading st arg o e split =
    if_intro (Reading st (arg ∷ [])) (not (contains flags_taking_value (take_run not_equals arg)))
      (λ _. tt)
      (λ h.
        elim (Result-cases (validate_value_for_flag (take_run not_equals arg) (after_equals arg))) [
          | inl (bad, fails) ↦ rw fails tt
          | inr (value, passes) ↦
              let f = take_run not_equals arg in
              let (takes, same) = validated f (after_equals arg) value (not-false _ h) passes in
              rw (passes, ← same)
                (record {
                  items = joined f (after_equals arg) ∷ [];
                  spelled = rw e (ap (λ a. a ∷ []) (equals_split arg split));
                  allowed = (takes, tt);
                  passed = ap (λ a. st.pass_args ++ (a ∷ [])) (equals_split arg split);
                  printed = or_nothing st.has_print;
                  prompts = sym (append-nil _);
                  seen = or_one (f == output_format_flag) st.saw_output_format;
                  verbose = or_one _ st.needs_verbose;
                  still_open = set_value-IsOpen st f (after_equals arg) (arg ∷ []) o takes;
                })
        ])

positional-Reading :
    (st : ArgState) (arg : Text)
    → IsOpen st
    → st.expect_value ≡ none
    → starts_with (text "-") arg ≡ false
    → Reading st (arg ∷ []) (take_positional st arg)
unfolding take_positional
positional-Reading st arg o e word =
    if_intro (Reading st (arg ∷ [])) (not st.has_print) (λ _. tt)
      (λ _.
        if_intro (Reading st (arg ∷ [])) st.has_prompt (λ _. tt)
          (λ first. record {
            items = prompt arg ∷ [];
            spelled = rw e refl;
            allowed = (word, tt);
            passed = refl;
            printed = or_nothing st.has_print;
            prompts = rw first refl;
            seen = or_nothing st.saw_output_format;
            verbose = or_nothing st.needs_verbose;
            still_open = record { waits = o.waits; format = o.format };
          }))

option-Reading :
    (st : ArgState) (arg : Text)
    → IsOpen st
    → st.expect_value ≡ none
    → Reading st (arg ∷ []) (take_option st arg)
unfolding take_option
option-Reading st arg o e =
    if_intro (Reading st (arg ∷ [])) (is_print arg)
      (λ h. record {
        items = print arg ∷ [];
        spelled = rw e refl;
        allowed = (h, tt);
        passed = sym (append-nil _);
        printed = or_true st.has_print;
        prompts = sym (append-nil _);
        seen = or_nothing st.saw_output_format;
        verbose = or_nothing st.needs_verbose;
        still_open = record { waits = o.waits; format = o.format };
      })
      (λ _.
        if_intro (Reading st (arg ∷ [])) (arg == text "--no-continue")
          (λ h.
            let same = (eq_iff arg (text "--no-continue")).0 h in
            record {
              items = no_continue ∷ [];
              spelled = rw (e, same) refl;
              allowed = (tt, tt);
              passed = rw same refl;
              printed = or_nothing st.has_print;
              prompts = sym (append-nil _);
              seen = or_nothing st.saw_output_format;
              verbose = or_nothing st.needs_verbose;
              still_open = record { waits = o.waits; format = o.format };
            })
          (λ _.
            if_intro (Reading st (arg ∷ [])) (arg == text "--update")
              (λ h.
                let same = (eq_iff arg (text "--update")).0 h in
                record {
                  items = update ∷ [];
                  spelled = rw (e, same) refl;
                  allowed = (tt, tt);
                  passed = sym (append-nil _);
                  printed = or_nothing st.has_print;
                  prompts = sym (append-nil _);
                  seen = or_nothing st.saw_output_format;
                  verbose = or_nothing st.needs_verbose;
                  still_open = record { waits = o.waits; format = o.format };
                })
              (λ _.
                if_intro (Reading st (arg ∷ [])) (contains flags_taking_value arg)
                  (λ listed. record {
                    items = [];
                    spelled = rw e refl;
                    allowed = tt;
                    passed = sym (append-nil _);
                    printed = or_nothing st.has_print;
                    prompts = sym (append-nil _);
                    seen = or_nothing st.saw_output_format;
                    verbose = or_nothing st.needs_verbose;
                    still_open = record {
                      waits = λ f h. rw (← some_injective h) listed;
                      format = o.format;
                    };
                  })
                  (λ _.
                    if_intro (Reading st (arg ∷ []))
                      (starts_with (text "--") arg && any (nat_beq b'=') arg)
                      (λ h. joined-Reading st arg o e (and_right _ _ h))
                      (λ _.
                        if_intro (Reading st (arg ∷ [])) (starts_with (text "-") arg) (λ _. tt)
                          (λ word. positional-Reading st arg o e word))))))

pub next-Reading :
    (st : ArgState) (expected : Option Text) (arg : Text)
    → IsOpen st
    → st.expect_value ≡ expected
    → Reading st (arg ∷ []) (take_next st expected arg)
unfolding take_next
next-Reading st none arg o e = option-Reading st arg o e
next-Reading st (some f) arg o e = value-Reading st f arg o e
