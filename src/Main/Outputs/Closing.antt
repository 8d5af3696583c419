-- ===== src/Main/Outputs/Closing.antt =====
-- What `main` has closed and waited for when it returns.
use crashinfo.Base.{
  ℕ, true, false, List, [], ◌∷◌, ◌++◌, ◌≡◌, refl, ◌∙◌, ap, arith, subst, Bytes, codes, Option, none,
  some, append-nil,
}
use crashinfo.Log.{Priority}
use crashinfo.Filters.{Messages, Filter, Trace, running, open_filters}
use crashinfo.Filters.Descriptors.{count, count-append, pids_of, Balanced, open_filters-Balanced}
use crashinfo.Close.{Processes, Call, RunOutput, close_output}
use crashinfo.Close.Endings.{some_fate, is_strange}
use crashinfo.Main.Outputs.{
  Supply, unused, MainCall, info_call, core_call, copy, each, notify_both, both_messages,
  end_output, open_and_close, Notified, outputs, at_end, at_err1,
}
use crashinfo.Output.{opened}
use crashinfo.Main.Outputs.Calls.{
  ending, close_output-ending, closes_of, waits_of, gather, gather_all, gather_all-info,
  gather_all-core, gather_all-each, gather_all-both, closes-ending, waits-ending,
}

-- Of the two outputs, what counts: that of the core is opened behind that of the document.
abbrev pub owed : Option Bytes → List ℕ → List ℕ → List ℕ
owed (some error) info core = info
owed none info core = core ++ info

module _ (p : Processes) (n : Notified) (info core : RunOutput) (fd fd' : ℕ) where
  outputs-error :
      (error : Bytes)
      → info.output_fd ≡ some fd
      → outputs p n info (some error) core
        ≡ at_err1
            ((Priority.crit, codes "Failed to open output: " ++ error) ∷ [])
            (close_output p n.info info)
  unfolding outputs
  outputs-error error i = rw i refl

  outputs-both :
      info.output_fd ≡ some fd
      → core.output_fd ≡ some fd'
      → outputs p n info none core
        ≡ at_end n.both
            (close_output p n.core core)
            (close_output p n.info (record info { output = true }))
  unfolding outputs
  outputs-both i c = rw i (rw c refl)

  abbrev main_calls : Option Bytes → List MainCall
  main_calls (some error) = each info_call (ending n.info info fd)
  main_calls none =
      copy
      ∷ (each core_call (ending n.core core fd')
          ++ (each info_call (ending n.info (record info { output = true }) fd)
              ++ notify_both n.both info.output_filename core.output_filename))

  outputs-main_calls :
      (stream : Option Bytes)
      → info.output_fd ≡ some fd
      → core.output_fd ≡ some fd'
      → some_fate is_strange p.fate info.filter ≡ false
      → some_fate is_strange p.fate core.filter ≡ false
      → (ms : Messages) × (outputs p n info stream core ≡ some (main_calls stream, ms))
  outputs-main_calls (some error) i c plain plain' =
      let (ms, e) = close_output-ending p n.info info fd i plain in
      let said : Messages = (Priority.crit, codes "Failed to open output: " ++ error) ∷ [] in
      (said ++ ms, outputs-error error i ∙ ap (at_err1 said) e)
  outputs-main_calls none i c plain plain' =
      let info' : RunOutput = record info { output = true } in
      let (ms, e) = close_output-ending p n.info info' fd i plain in
      let (ms', e') = close_output-ending p n.core core fd' c plain' in
      (
        ms' ++ (ms ++ both_messages n.both info.output_filename core.output_filename),
        outputs-both i c
            ∙ ap (λ o. at_end n.both o (close_output p n.info info')) e'
            ∙ ap
                (at_end n.both (
                  some (
                    record core { output = false; output_fd = none },
                    ending n.core core fd',
                    ms',
                  )))
                e,
      )

  gather_all-main_calls :
      (f g : Call → List ℕ) (xs ys : List ℕ) (stream : Option Bytes)
      → ((r : RunOutput) → r.filter ≡ info.filter → gather f (ending n.info r fd) ≡ xs)
      → gather g (ending n.core core fd') ≡ ys
      → gather_all f g (main_calls stream) ≡ owed stream xs ys
  gather_all-main_calls f g xs ys (some error) x y =
      gather_all-each f g (ending n.info info fd) ∙ x info refl
  gather_all-main_calls f g xs ys none x y =
      let info' : RunOutput = record info { output = true } in
      let both = notify_both n.both info.output_filename core.output_filename in
      gather_all-core f g (ending n.core core fd') (each info_call (ending n.info info' fd) ++ both)
      ∙ rw
          (
            gather_all-info f g (ending n.info info' fd) both,
            gather_all-both f g n.both info.output_filename core.output_filename,
            y,
            x info' refl,
          )
          (ap (λ t. ys ++ t) (append-nil xs))

abbrev pub closed_by : ℕ → ℕ → List MainCall → List ℕ
closed_by fd fd' calls = gather_all (closes_of fd) (closes_of fd') calls

abbrev pub waited_by : List MainCall → List ℕ
waited_by calls = gather_all waits_of waits_of calls

module _ (p : Processes) (n : Notified) (info core : RunOutput) (fd fd' : ℕ)
    (stream : Option Bytes) where
  closed_by-main_calls :
      closed_by fd fd' (main_calls p n info core fd fd' stream) ≡ owed stream (fd ∷ []) (fd' ∷ [])
  closed_by-main_calls =
      gather_all-main_calls p n info core fd fd' (closes_of fd) (closes_of fd') (fd ∷ []) (fd' ∷ [])
        stream (λ r e. closes-ending n.info r fd) (closes-ending n.core core fd')

  waited_by-main_calls :
      waited_by (main_calls p n info core fd fd' stream)
      ≡ owed stream (pids_of info.filter) (pids_of core.filter)
  waited_by-main_calls =
      gather_all-main_calls p n info core fd fd' waits_of waits_of (pids_of info.filter)
        (pids_of core.filter) stream (λ r e. waits-ending n.info r fd ∙ ap pids_of e)
        (waits-ending n.core core fd')

running-count :
    (a : Supply) (commands : List Bytes) (fd out : ℕ) (fs : List Filter) (t : Trace)
    → open_filters a.first a.rounds commands fd ≡ running out fs t
    → (x : ℕ) → count x (out ∷ t.closed) ≡ count x (fd ∷ t.opened)
running-count a commands fd out fs t runs =
    (subst (Balanced fd commands) runs (open_filters-Balanced a.first a.rounds commands fd)).0

count-owed :
    (x : ℕ) (stream : Option Bytes) (out out' : ℕ) (closed closed' had had' : List ℕ)
    → count x (out ∷ closed) ≡ count x had
    → count x (out' ∷ closed') ≡ count x had'
    → count x (owed stream (out ∷ []) (out' ∷ []) ++ owed stream closed closed')
      ≡ count x (owed stream had had')
count-owed x (some error) out out' closed closed' had had' h h' = h
count-owed x none out out' closed closed' had had' h h' =
    ground (arith, count-append x closed' closed, count-append x had' had)

module _ (p : Processes) (n : Notified) (info core : Supply) (commands commands' : List Bytes)
    (fd fd' : ℕ) (name name' : Option Bytes) {S : Type 0} (s s' : S) (ms ms' : Messages) where
  -- Where the filters of both outputs run, and each of them exits or is killed in the end, `main` comes
  -- to its end with every descriptor of its outputs closed exactly as often as it was opened, and each
  -- process that it has started for a filter waited for once: also where `fdopen` fails, in which case
  -- the core is not opened and what counts is the output of the document alone.
  pub outputs-Balanced :
      (out out' : ℕ) (fs fs' : List Filter) (t t' : Trace) (stream : Option Bytes)
      → open_filters info.first info.rounds commands fd ≡ running out fs t
      → open_filters core.first core.rounds commands' fd' ≡ running out' fs' t'
      → some_fate is_strange p.fate fs ≡ false
      → some_fate is_strange p.fate fs' ≡ false
      → (calls : List MainCall) × (logged : Messages) × (open_and_close p n
            (end_output info commands (opened fd name s ms))
            stream
            (end_output core commands' (opened fd' name' s' ms'))
          ≡ some (calls, logged))
        × ((x : ℕ)
            → count x (closed_by out out' calls ++ owed stream t.closed t'.closed)
              ≡ count x (owed stream (fd ∷ t.opened) (fd' ∷ t'.opened)))
        × (waited_by calls ≡ owed stream (pids_of fs) (pids_of fs'))
  unfolding end_output
  outputs-Balanced out out' fs fs' t t' stream runs runs' plain plain' =
      let r : RunOutput = record (unused (some out) name) { filter = fs } in
      let r' : RunOutput = record (unused (some out') name') { filter = fs' } in
      let (logged, e) = outputs-main_calls p n r r' out out' stream refl refl plain plain' in
      (
        main_calls p n r r' out out' stream,
        logged,
        rw (runs, runs') e,
        λ x. rw (closed_by-main_calls p n r r' out out' stream) (
            count-owed x stream out out' t.closed t'.closed (fd ∷ t.opened) (fd' ∷ t'.opened)
              (running-count info commands fd out fs t runs x)
              (running-count core commands' fd' out' fs' t' runs' x)),
        waited_by-main_calls p n r r' out out' stream,
      )
