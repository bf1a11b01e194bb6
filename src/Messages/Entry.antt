-- ===== src/Messages/Entry.antt =====
-- platform/linux/error_messages.c: one entry of the table.
use winafi.Prelude.{Option}
use winafi.Prelude.Int.{ℤ}
use winafi.Prelude.Text.{CString}

pub record ErrorEntry : Type 0 where
  pub error_code : ℤ
  pub message : CString
  pub recovery : CString
  -- `none` is NULL
  pub faq_link : Option CString

abbrev pub entry : ℤ → CString → CString → Option CString → ErrorEntry
entry code message recovery link = record {
  error_code = code;
  message = message;
  recovery = recovery;
  faq_link = link;
}
