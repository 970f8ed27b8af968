-- ===== src/LogWriter/Entries.antt =====
-- The entries that the lines of `memberlist` get (cluster/zerolog_writer.go).
use qa_d.Base.{◌≡◌, false, ◌++◌, Text, codes, has_prefix}
use qa_d.LogWriter.{Level, debug, info, warn, error}

-- The four prefixes.
abbrev prefix_of : Level → Text
prefix_of debug = codes "[DEBUG] "
prefix_of info = codes "[INFO] "
prefix_of warn = codes "[WARN] "
prefix_of error = codes "[ERR] "

-- What a message is logged as: the text behind a prefix, with the level of the prefix, or all of it as
-- an error where it has none.
pub data IsEntry (msg : Text) : Level × Text → Type 0 where
  prefixed :
      (level : Level) (text : Text) → msg ≡ prefix_of level ++ text → IsEntry msg (level, text)
  plain : ((level : Level) → has_prefix msg (prefix_of level) ≡ false) → IsEntry msg (error, msg)
