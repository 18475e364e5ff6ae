-- ===== src/Apps/Commands/Allowed.antt =====
-- Which commands a user may run in the container of an app: src/core/apps/mixins/apps/run_command.py.
use fabroku_back_end.Base.{
  Bool, true, not, ◌&&◌, ◌||◌, List, [], ◌∷◌, ◌++◌, any, ◌≡◌, refl, Codes, codes, text_eq,
  is_prefix, is_infix,
}
use fabroku_back_end.Apps.Commands.Paths.{strip, lstrip, rstrip}

-- `ALLOWED_COMMANDS`
abbrev allowed_commands : List Codes
allowed_commands =
    codes "python manage.py migrate"
    ∷ codes "python manage.py collectstatic --noinput"
    ∷ codes "python manage.py createsuperuser --noinput"
    ∷ codes "python manage.py showmigrations"
    ∷ codes "npm run migrate"
    ∷ codes "npx prisma migrate deploy"
    ∷ codes "npx prisma db push"
    ∷ codes "node ace migration:run"
    ∷ codes "php artisan migrate"
    ∷ codes "php artisan migrate --force"
    ∷ codes "rails db:migrate"
    ∷ codes "bundle exec rails db:migrate"
    ∷ codes "python manage.py loaddata"
    ∷ []

-- `ALLOWED_PREFIXES`
abbrev allowed_prefixes : List Codes
allowed_prefixes =
    codes "python manage.py "
    ∷ codes "npm run "
    ∷ codes "npx prisma "
    ∷ codes "node ace "
    ∷ codes "php artisan "
    ∷ codes "rails "
    ∷ codes "bundle exec "
    ∷ []

abbrev dangerous_parts : List Codes
dangerous_parts =
    codes "rm "
    ∷ codes "del "
    ∷ codes "&&"
    ∷ codes "||"
    ∷ codes ";"
    ∷ codes "|"
    ∷ codes ">"
    ∷ codes "<"
    ∷ codes "`"
    ∷ codes "$("
    ∷ []

abbrev is_listed : Codes → Bool
is_listed s =
    any (text_eq s) allowed_commands
    || any (λ p. is_prefix p s && not (any (λ d. is_infix d s) dangerous_parts)) allowed_prefixes

-- `is_command_allowed`
unfoldable pub is_command_allowed : Codes → Bool
is_command_allowed command = is_listed (strip command)

-- Neither a single `&` nor a line break is looked for.
background_allowed : is_command_allowed (codes "python manage.py check & curl host") ≡ true
unfolding is_command_allowed lstrip rstrip
background_allowed = refl

second_line_allowed :
    is_command_allowed (codes "python manage.py check" ++ (10 ∷ codes "curl host")) ≡ true
unfolding is_command_allowed lstrip rstrip
second_line_allowed = refl
