-- ===== src/LogWriter.antt =====
-- cluster/zerolog_writer.go: the writer that gives the lines of `memberlist` to the logger, with a
-- level. The log is the list of its entries, the last one last.
mod Entries
mod Tests
use qa_d.Base.{
  trim_prefix, trim_suffix, ℕ, ◌-◌, List, [], ◌∷◌, ◌++◌, Text, codes, has_prefix, has_suffix,
  if◌then◌else◌, length, take, drop,
}

pub data Level : Type 0 where
  debug info warn error : Level

abbrev pub newline : Text
newline = 10 ∷ []

-- The level and the message of the `switch`.
unfoldable pub entry_of : Text → Level × Text
unfolding trim_prefix
entry_of msg =
    if has_prefix msg (codes "[DEBUG] ")
    then (debug, trim_prefix msg (codes "[DEBUG] "))
    else if has_prefix msg (codes "[INFO] ")
    then (info, trim_prefix msg (codes "[INFO] "))
    else if has_prefix msg (codes "[WARN] ")
    then (warn, trim_prefix msg (codes "[WARN] "))
    else if has_prefix msg (codes "[ERR] ")
    then (error, trim_prefix msg (codes "[ERR] "))
    else (error, msg)

-- `Write`: the number of bytes, and the log. Its error is always `nil`.
unfoldable pub write_line : List (Level × Text) → Text → ℕ × List (Level × Text)
unfolding entry_of trim_suffix
write_line log p = (length p, log ++ entry_of (trim_suffix p newline) ∷ [])
