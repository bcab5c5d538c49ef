-- ===== src/Report/Mail.antt =====
-- backend/src/services/email.service.js. nodemailer is a parameter; the log line is left out, and so is
-- the html that no caller gives.
use task.Prelude.{String, Option, none, some, Bool, if◌then◌else◌, []}
use text.Mathlib.Text.{◌==◌}
use task.Http.{Exception}
use task.Report.Worker.{Email, Done, done, broke}

pub record Nodemailer : Type 1 where
  pub Transport : Type 0
  pub Mail : Type 0
  pub smtp_transport : String → Transport
  pub json_transport : Transport
  pub send_mail : Transport → String → Email → Mail → Done Unit × Mail

pub record MailConfig : Type 0 where
  pub smtp_url : String
  pub is_production : Bool
  pub email_from : String

abbrev pub no_smtp : Exception
no_smtp = record {
  message = "SMTP_URL is required in production: refusing to use the no-op JSON mail transport";
  status_code = none;
  errors = [];
}

module _ (n : Nodemailer) (config : MailConfig) where
  open n use {Transport, Mail, smtp_transport, json_transport, send_mail}

  -- The cached transport, and the mail behind it.
  pub record Mailer : Type 0 where
    pub transporter : Option Transport
    pub mail : Mail

  -- A transport that is built is kept.
  abbrev built : Transport → Mailer → Done Transport × Mailer
  built t m = (done t, record m { transporter = some t })

  unfoldable pub build_transporter : Mailer → Done Transport × Mailer
  build_transporter m =
      if config.smtp_url == ""
      then (if config.is_production then (broke no_smtp, m) else built json_transport m)
      else built (smtp_transport config.smtp_url) m

  unfoldable pub get_transporter : Option Transport → Mailer → Done Transport × Mailer
  unfolding build_transporter
  get_transporter none m = build_transporter m
  get_transporter (some t) m = (done t, m)

  abbrev sent_by : Done Transport → Email → Mailer → Done Unit × Mailer
  sent_by (broke x) email m = (broke x, m)
  sent_by (done t) email m =
      let (answer, mail) = send_mail t config.email_from email m.mail in
      (answer, record m { mail = mail })

  unfoldable pub send_email : Email → Mailer → Done Unit × Mailer
  unfolding get_transporter
  send_email email m = let (t, m') = get_transporter m.transporter m in sent_by t email m'

  unfoldable pub reset_transporter : Mailer → Mailer
  reset_transporter m = record m { transporter = none }
