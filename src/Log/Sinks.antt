-- ===== src/Log/Sinks.antt =====
-- What reaches the sinks, against the thresholds of LOGGING OPTIONS in crashinfo.1.
use crashinfo.Base.{
  List, [], ◌∷◌, ◌++◌, append_assoc, append-nil, ◌≡◌, sym, arith, Bytes, ℤ, pos, leb_ℤ,
  if◌then◌else◌, ◌∙◌, codes,
}
use crashinfo.Log.{Priority, LogConf, LogState, level, prefix, logmsg, log_all}

-- The messages whose priority is at least as grave as the threshold, in order.
abbrev pub passing : ℤ → List (Priority × Bytes) → List (Priority × Bytes)
passing threshold [] = []
passing threshold ((p, text) ∷ rest) =
    if leb_ℤ (pos (level p)) threshold
    then (p, text) ∷ passing threshold rest
    else passing threshold rest

-- Messages as lines of text, each behind a mark.
abbrev pub lines : Bytes → List (Priority × Bytes) → Bytes
lines mark [] = []
lines mark ((p, text) ∷ rest) = mark ++ (prefix p ++ (text ++ (codes "\n" ++ lines mark rest)))

log_all-syslog :
    (c : LogConf) (ms : List (Priority × Bytes)) (s : LogState)
    → (log_all c ms s).syslog ≡ s.syslog ++ passing c.syslog ms
unfolding logmsg
log_all-syslog c [] s = sym (append-nil s.syslog)
log_all-syslog c ((p, text) ∷ ms) s =
    log_all-syslog c ms (logmsg c p text s)
    ∙ ground (arith, append_assoc s.syslog ((p, text) ∷ []) (passing c.syslog ms))

-- One line behind what a sink holds, brought to the front of the lines that follow it.
regroup :
    (held mark pre text end rest : Bytes)
    → (held ++ (mark ++ (pre ++ text ++ end))) ++ rest
      ≡ held ++ (mark ++ (pre ++ (text ++ (end ++ rest))))
regroup held mark pre text end rest = simp append_assoc

log_all-stderr :
    (c : LogConf) (ms : List (Priority × Bytes)) (s : LogState)
    → (log_all c ms s).stderr ≡ s.stderr ++ lines [] (passing c.stderr ms)
unfolding logmsg
log_all-stderr c [] s = sym (append-nil s.stderr)
log_all-stderr c ((p, text) ∷ ms) s =
    let rest = lines [] (passing c.stderr ms) in
    log_all-stderr c ms (logmsg c p text s)
    ∙ ground (arith, regroup s.stderr [] (prefix p) text (codes "\n") rest)

log_all-info :
    (c : LogConf) (ms : List (Priority × Bytes)) (s : LogState)
    → (log_all c ms s).info
      ≡ s.info ++ (if s.info_open then lines (codes "# ") (passing c.info ms) else [])
unfolding logmsg
log_all-info c [] s = ground (arith, append-nil s.info)
log_all-info c ((p, text) ∷ ms) s =
    let rest = lines (codes "# ") (passing c.info ms) in
    log_all-info c ms (logmsg c p text s)
    ∙ ground (arith, regroup s.info (codes "# ") (prefix p) text (codes "\n") rest)

-- Each sink gets exactly the messages that its own threshold lets pass, in order, each with its
-- prefix; the info stream gets them as comments, and only while it is open.
pub log_all-sinks :
    (c : LogConf) (ms : List (Priority × Bytes)) (s : LogState)
    → ((log_all c ms s).stderr ≡ s.stderr ++ lines [] (passing c.stderr ms))
      × ((log_all c ms s).syslog ≡ s.syslog ++ passing c.syslog ms)
      × ((log_all c ms s).info
          ≡ s.info ++ (if s.info_open then lines (codes "# ") (passing c.info ms) else []))
log_all-sinks c ms s = (log_all-stderr c ms s, log_all-syslog c ms s, log_all-info c ms s)
