-- ===== src/Processor/Normalizer/Salary/Currency.antt =====
-- The currencies that internal/processor/normalizer.go gives.
use jobcrawler.Base.{
  ℤ, String, inl, inr, Bool, true, false, Option, none, some, str_eq, Bool-cases, if◌then◌else◌,
}
use jobcrawler.Processor.Normalizer.Matching.{leftmost}
use jobcrawler.Processor.Normalizer.Salary.{
  normalise_currency, currency_or_eur, de_salary, short_salary, up_to_salary, parse_salary,
  match_de, match_short, match_up_to, Salary,
}

-- The four ISO 4217 codes.
pub data IsCurrency : String → Type 0 where
  eur : IsCurrency "EUR"
  usd : IsCurrency "USD"
  gbp : IsCurrency "GBP"
  chf : IsCurrency "CHF"

if-IsCurrency :
    (b : Bool) (s t : String) → IsCurrency s → IsCurrency t → IsCurrency (if b then s else t)
if-IsCurrency true s t p q = p
if-IsCurrency false s t p q = q

normalise_currency-IsCurrency : (s : String) → IsCurrency (normalise_currency s)
unfolding normalise_currency
normalise_currency-IsCurrency s =
    if-IsCurrency _ _ _ eur
      (if-IsCurrency _ _ _ usd (if-IsCurrency _ _ _ gbp (if-IsCurrency _ _ _ chf eur)))

currency_or_eur-IsCurrency : (s : String) → IsCurrency (currency_or_eur s)
currency_or_eur-IsCurrency s = if-IsCurrency (str_eq s "") _ _ eur (normalise_currency-IsCurrency s)

-- A salary has an upper amount and a currency, or it has nothing; without an upper amount there is no
-- lower one.
pub data IsSalary : Salary → Type 0 where
  missing : IsSalary (none, none, "")
  given :
      (low : Option ℤ) (high : ℤ) (cur : String) → IsCurrency cur → IsSalary (low, some high, cur)

up_to_salary-IsSalary : (o : Option (String × String)) → IsSalary (up_to_salary o)
up_to_salary-IsSalary none = missing
up_to_salary-IsSalary (some (high, cur)) = given _ _ _ (currency_or_eur-IsCurrency cur)

short_salary-IsSalary :
    (o : Option (String × String × String)) (rest : Salary)
    → IsSalary rest
    → IsSalary (short_salary o rest)
short_salary-IsSalary none rest r = r
short_salary-IsSalary (some (low, high, cur)) rest r =
    given _ _ _ (normalise_currency-IsCurrency cur)

de_salary-IsSalary :
    (o : Option (String × String × String)) (rest : Salary)
    → IsSalary rest
    → IsSalary (de_salary o rest)
de_salary-IsSalary none rest r = r
de_salary-IsSalary (some (low, high, cur)) rest r = given _ _ _ (currency_or_eur-IsCurrency cur)

-- Of every text, ParseSalary gives an upper amount and one of the codes EUR, USD, GBP and CHF, or no
-- amount and no currency.
pub parse_salary-IsSalary : (text : String) → IsSalary (parse_salary text)
unfolding parse_salary
parse_salary-IsSalary text = elim (Bool-cases (str_eq text "")) [
  | inl empty ↦ rw (empty, parse_salary) missing
  | inr filled ↦
      rw (filled, parse_salary)
        (de_salary-IsSalary (leftmost match_de text) _ (
          short_salary-IsSalary (leftmost match_short text) _
            (up_to_salary-IsSalary (leftmost match_up_to text))))
]
