-- ===== src/Mail/Examples.antt =====
-- logging.cc: arguments of the mail command.
use ng_log.Prelude.{◌≡◌, refl, true, false, none, some, codes}
use ng_log.Mail.Quoting.{shell_escape, quote_windows_argument}
use ng_log.Mail.Shell.{shell_word, shell_word-shell_escape}
use ng_log.Mail.Windows.{argument_text, is_unambiguous, argument_text-quote_windows_argument}

shell_word-shell_escape_example :
    shell_word (shell_escape (codes "it's $HOME")) ≡ some (codes "it's $HOME")
shell_word-shell_escape_example = shell_word-shell_escape (codes "it's $HOME")

shell_escape-quotes : shell_escape (codes "it's $HOME") ≡ codes "\"it's \\$HOME\""
unfolding shell_escape
shell_escape-quotes = refl

clear_argument : is_unambiguous (codes "C:\\my \"mail\"\\") ≡ true
unfolding is_unambiguous
clear_argument = refl

clear_argument-read :
    argument_text false 0 (quote_windows_argument (codes "C:\\my \"mail\"\\"))
    ≡ some (codes "C:\\my \"mail\"\\")
clear_argument-read =
    argument_text-quote_windows_argument (codes "C:\\my \"mail\"\\") clear_argument

-- Behind a backslash a double quote is lost, and the argument does not end.
backslash_quote-unread : argument_text false 0 (quote_windows_argument (codes "\\\"")) ≡ none
unfolding argument_text quote_windows_argument
backslash_quote-unread = refl
